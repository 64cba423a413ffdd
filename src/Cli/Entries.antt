-- ===== src/Cli/Entries.antt =====
-- main.go: what `setup migrate` and `setup upgrade` share: which user entries of a kubeconfig they
-- pick, and the assignment to a field of the exec section that a pointer of the map leads to.
use kubelogin_daemon.Prelude.{
  ◌≡◌, refl, sym, Bool, true, false, not, ◌&&◌, Option, none, some, List, [], ◌∷◌, if◌then◌else◌,
  inl, inr, arith, All, Bool-cases,
}
use kubelogin_daemon.Text.{
  Text, codes, text_eq, text_eq_refl, text_eq_comm, text_eq_sound, is_empty,
}
use kubelogin_daemon.Refresher.{is_member}
use mathlib.Core.Path.{subst}
use kubelogin_daemon.Assoc.{Assoc, insert, lookup, Unique}
use kubelogin_daemon.Cli.Kubeconfig.{ExecConfig, AuthInfo, Kubeconfig, find, has_command}

-- `config.AuthInfos[user].Exec`, changed in place where it is not nil.
unfoldable pub update_exec : (ExecConfig → ExecConfig) → Text → Kubeconfig → Kubeconfig
update_exec change user config = elim (find user config.auth_infos) [
  | none ↦ config
  | some info ↦ elim info.exec [
    | none ↦ config
    | some exec ↦ record config {
      auth_infos = insert user (some (record info { exec = some (change exec) })) config.auth_infos;
    }
  ]
]

unfoldable pub update_all : (ExecConfig → ExecConfig) → List Text → Kubeconfig → Kubeconfig
unfolding update_exec
update_all change [] config = config
update_all change (user ∷ users) config = update_all change users (update_exec change user config)

-- `answer != "" && answer != "y" && answer != "yes"`, of the trimmed answer in lower case.
unfoldable pub is_refusal : Text → Bool
is_refusal answer =
    not (is_empty answer) && not (text_eq answer (codes "y")) && not (text_eq answer (codes "yes"))

-- `for user, info := range config.AuthInfos`: the users whose command passes one test, and whose
-- name passes another.
unfoldable pub users_where : (Text → Bool) → (Text → Bool) → Assoc (Option AuthInfo) → List Text
users_where test select [] = []
users_where test select ((user, info) ∷ infos) =
    let rest = users_where test select infos in
    if has_command info test && select user then user ∷ rest else rest

-- Every entry that passes the tests is one of some users'.
abbrev pub Covered : (Text → Bool) → (Text → Bool) → List Text → Assoc (Option AuthInfo) → Type 0
Covered test select users =
    All (λ e. ((has_command e.1 test && select e.0) && not (is_member e.0 users)) ≡ false)

pub find_other :
    {A : Type 0} (user k : Text) (info : Option A) (m : Assoc (Option A))
    → text_eq k user ≡ false
    → find user ((k, info) ∷ m) ≡ find user m
unfolding lookup
find_other user k info m e = ground arith

module _ (test select : Text → Bool) where
  Covered-more :
      (user : Text) (users : List Text) (m : Assoc (Option AuthInfo))
      → Covered test select users m
      → Covered test select (user ∷ users) m
  unfolding is_member
  Covered-more user users [] c = tt
  Covered-more user users ((k, info) ∷ m) c = (ground arith, Covered-more user users m c.1)

  pub users_where-yes :
      (k : Text) (info : Option AuthInfo) (m : Assoc (Option AuthInfo))
      → (has_command info test && select k) ≡ true
      → users_where test select ((k, info) ∷ m) ≡ k ∷ users_where test select m
  unfolding users_where
  users_where-yes k info m e = rw e refl

  pub users_where-no :
      (k : Text) (info : Option AuthInfo) (m : Assoc (Option AuthInfo))
      → (has_command info test && select k) ≡ false
      → users_where test select ((k, info) ∷ m) ≡ users_where test select m
  unfolding users_where
  users_where-no k info m e = rw e refl

  pub users_where-Covered :
      (m : Assoc (Option AuthInfo)) → Covered test select (users_where test select m) m
  unfolding users_where is_member
  users_where-Covered [] = tt
  users_where-Covered ((k, info) ∷ m) = elim (Bool-cases (has_command info test && select k)) [
    | inl e ↦
        subst (λ users. Covered test select users ((k, info) ∷ m))
          (sym (users_where-yes k info m e))
          (
            ground (arith, text_eq_refl k),
            Covered-more k (users_where test select m) m (users_where-Covered m),
          )
    | inr e ↦
        subst (λ users. Covered test select users ((k, info) ∷ m)) (sym (users_where-no k info m e))
          (ground arith, users_where-Covered m)
  ]

  pub Covered-users_where :
      (m : Assoc (Option AuthInfo)) → Covered test select [] m → users_where test select m ≡ []
  unfolding users_where is_member
  Covered-users_where [] c = refl
  Covered-users_where ((k, info) ∷ m) c = ground (arith, Covered-users_where m c.1)

  Covered-absent :
      (user : Text) (users : List Text) (m : Assoc (Option AuthInfo))
      → lookup user m ≡ none
      → Covered test select (user ∷ users) m
      → Covered test select users m
  unfolding lookup is_member
  Covered-absent user users [] h c = tt
  Covered-absent user users ((k, info) ∷ m) h c =
      (ground (arith, text_eq_comm k user), Covered-absent user users m (ground arith) c.1)

  -- The entry of a user that does not pass the tests needs no cover.
  pub Covered-drop :
      (user : Text) (users : List Text) (m : Assoc (Option AuthInfo))
      → Unique m
      → has_command (find user m) test ≡ false
      → Covered test select (user ∷ users) m
      → Covered test select users m
  unfolding lookup is_member
  Covered-drop user users [] u h c = tt
  Covered-drop user users ((k, info) ∷ m) u h c = elim (Bool-cases (text_eq k user)) [
    | inl e ↦ (
      ground arith,
      Covered-absent user users m (subst (λ t. lookup t m ≡ none) (text_eq_sound k user e) u.0) c.1,
    )
    | inr e ↦ (
      ground (arith, text_eq_comm k user),
      Covered-drop user users m u.1
          (subst (λ i. has_command i test ≡ false) (find_other user k info m e) h) c.1,
    )
  ]

  pub Covered-insert :
      (user : Text) (users : List Text) (info : Option AuthInfo) (m : Assoc (Option AuthInfo))
      → Unique m
      → has_command info test ≡ false
      → Covered test select (user ∷ users) m
      → Covered test select users (insert user info m)
  unfolding insert is_member
  Covered-insert user users info [] u h c = (ground arith, tt)
  Covered-insert user users info ((k, old) ∷ m) u h c = elim (Bool-cases (text_eq k user)) [
    | inl e ↦ rw e (
      ground arith,
      Covered-absent user users m (subst (λ t. lookup t m ≡ none) (text_eq_sound k user e) u.0) c.1,
    )
    | inr e ↦ rw e (ground (arith, text_eq_comm k user), Covered-insert user users info m u.1 h c.1)
  ]
