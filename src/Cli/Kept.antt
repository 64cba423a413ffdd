-- ===== src/Cli/Kept.antt =====
-- What a login reads out of a kubeconfig is kept by an update of exec sections that keeps the
-- arguments, where the commands before and behind it are ones that a login accepts.
use mathlib.Core.Path.{subst}
use kubelogin_daemon.Prelude.{
  ◌≡◌, refl, sym, Bool, true, ◌&&◌, Option, none, some, List, [], ◌∷◌, if◌then◌else◌, ◌⊎◌, inl, inr,
  arith, All, ap, ◌∙◌, Bool-cases, Option-cases, if_both,
}
use kubelogin_daemon.Text.{Text, text_eq, text_eq_refl, text_eq_sound, is_empty}
use kubelogin_daemon.Assoc.{Assoc, lookup, lookup-insert, Unique}
use kubelogin_daemon.Refresher.{ok}
use kubelogin_daemon.Cli.Options.{ℤ, ParsedConfig}
use kubelogin_daemon.Cli.Kubeconfig.{
  Context, CliError, no_current_context, context_not_found, ExecConfig, AuthInfo, Kubeconfig, find,
  has_command, is_accepted_command, parse_user, parse_oidc_from_kubeconfig,
}
use kubelogin_daemon.Cli.Entries.{
  update_exec, update_all, users_where, users_where-yes, users_where-no, find_other,
}
use kubelogin_daemon.Cli.Updates.{
  with_exec, put_info, update_exec-cases, update_all-contexts, has_command_exec,
}

-- The entry of a user has a command that `login` accepts.
abbrev pub IsAccepted : Kubeconfig → Text → Type 0
IsAccepted config user = has_command (find user config.auth_infos) is_accepted_command ≡ true

-- `parseOIDCFromKubeconfig` behind the choice of the context's name.
abbrev read_context :
    (Text → Option ℤ)
    → Assoc (Option Context)
    → Assoc (Option AuthInfo)
    → Text
    → CliError ⊎ ParsedConfig
read_context parse_int contexts infos chosen =
    if is_empty chosen then inl no_current_context else elim (find chosen contexts) [
      | none ↦ inl (context_not_found chosen)
      | some context ↦ parse_user parse_int context.auth_info (find context.auth_info infos)
    ]

read_context-kept :
    (parse_int : Text → Option ℤ) (contexts : Assoc (Option Context))
    (after before : Assoc (Option AuthInfo)) (chosen : Text)
    → ((user : Text)
        → parse_user parse_int user (find user after)
          ≡ parse_user parse_int user (find user before))
    → read_context parse_int contexts after chosen ≡ read_context parse_int contexts before chosen
read_context-kept parse_int contexts after before chosen same =
    elim (Bool-cases (is_empty chosen)) [
      | inl e ↦ rw e refl
      | inr e ↦ rw e (elim (Option-cases (find chosen contexts)) [
        | inl absent ↦ rw absent refl
        | inr (context, there) ↦ rw there (same context.auth_info)
      ])
    ]

-- A login reads the same out of two kubeconfigs with the same contexts, where it reads the same
-- out of the entry of every user.
parse_oidc-kept :
    (parse_int : Text → Option ℤ) (after before : Kubeconfig) (name : Text)
    → after.contexts ≡ before.contexts
    → after.current_context ≡ before.current_context
    → ((user : Text)
        → parse_user parse_int user (find user after.auth_infos)
          ≡ parse_user parse_int user (find user before.auth_infos))
    → parse_oidc_from_kubeconfig parse_int (ok after) name
      ≡ parse_oidc_from_kubeconfig parse_int (ok before) name
unfolding parse_oidc_from_kubeconfig
parse_oidc-kept parse_int after before name contexts current same =
    ap
      (λ ctxs.
        read_context parse_int ctxs after.auth_infos
          (if is_empty name then after.current_context else name))
      contexts
    ∙ ap
        (λ c.
          read_context parse_int before.contexts after.auth_infos
            (if is_empty name then c else name))
        current
    ∙ read_context-kept parse_int before.contexts after.auth_infos before.auth_infos
        (if is_empty name then before.current_context else name) same

module _ (parse_int : Text → Option ℤ) (change : ExecConfig → ExecConfig)
    (keeps_args : (exec : ExecConfig) → (change exec).args ≡ exec.args)
    (accepted : (exec : ExecConfig) → is_accepted_command (change exec).command ≡ true) where
  parse_user-changed :
      (user : Text) (info : AuthInfo) (exec : ExecConfig)
      → info.exec ≡ some exec
      → is_accepted_command exec.command ≡ true
      → parse_user parse_int user (some (with_exec info (change exec)))
        ≡ parse_user parse_int user (some info)
  unfolding parse_user
  parse_user-changed user info exec given before =
      rw (given, parse_user) (rw (before, accepted exec, keeps_args exec) refl)

  find-put_info :
      (user other : Text) (info : AuthInfo) (config : Kubeconfig)
      → find other (put_info user info config).auth_infos
        ≡ (if text_eq user other then some info else find other config.auth_infos)
  find-put_info user other info config =
      ground (arith, lookup-insert user other (some info) config.auth_infos)

  parse_user-update_exec :
      (user other : Text) (config : Kubeconfig)
      → IsAccepted config user
      → parse_user parse_int other (find other (update_exec change user config).auth_infos)
        ≡ parse_user parse_int other (find other config.auth_infos)
  parse_user-update_exec user other config h = elim (update_exec-cases change user config) [
    | inl (absent, same) ↦ ap (λ c. parse_user parse_int other (find other c.auth_infos)) same
    | inr (info, exec, found, given, new) ↦
        ap (λ c. parse_user parse_int other (find other c.auth_infos)) new
        ∙ ap (parse_user parse_int other)
            (find-put_info user other (with_exec info (change exec)) config)
        ∙ elim (Bool-cases (text_eq user other)) [
          | inr e ↦ rw e refl
          | inl e ↦ rw e (
              parse_user-changed other info exec given (
                has_command_exec is_accepted_command info exec given
                  (subst (λ i. has_command i is_accepted_command ≡ true) found h))
              ∙ ap (parse_user parse_int other) (
                  sym (
                    subst (λ u. find u config.auth_infos ≡ some info) (text_eq_sound user other e)
                      found)))
        ]
  ]

  IsAccepted-update_exec :
      (user other : Text) (config : Kubeconfig)
      → IsAccepted config other
      → IsAccepted (update_exec change user config) other
  IsAccepted-update_exec user other config h = elim (update_exec-cases change user config) [
    | inl (absent, same) ↦ subst (λ c. IsAccepted c other) (sym same) h
    | inr (info, exec, found, given, new) ↦
        subst (λ c. IsAccepted c other) (sym new)
          (subst (λ i. has_command i is_accepted_command ≡ true)
            (sym (find-put_info user other (with_exec info (change exec)) config))
            (if_both (λ i. has_command i is_accepted_command ≡ true) (text_eq user other)
              (accepted exec) h))
  ]

  All-update_exec :
      (user : Text) (users : List Text) (config : Kubeconfig)
      → All (IsAccepted config) users
      → All (IsAccepted (update_exec change user config)) users
  All-update_exec user [] config a = tt
  All-update_exec user (other ∷ users) config a =
      (IsAccepted-update_exec user other config a.0, All-update_exec user users config a.1)

  parse_user-update_all :
      (users : List Text) (other : Text) (config : Kubeconfig)
      → All (IsAccepted config) users
      → parse_user parse_int other (find other (update_all change users config).auth_infos)
        ≡ parse_user parse_int other (find other config.auth_infos)
  unfolding update_all
  parse_user-update_all [] other config a = refl
  parse_user-update_all (user ∷ users) other config a =
      parse_user-update_all users other (update_exec change user config)
        (All-update_exec user users config a.1)
      ∙ parse_user-update_exec user other config a.0

  pub parse_oidc-update_all :
      (users : List Text) (name : Text) (config : Kubeconfig)
      → All (IsAccepted config) users
      → parse_oidc_from_kubeconfig parse_int (ok (update_all change users config)) name
        ≡ parse_oidc_from_kubeconfig parse_int (ok config) name
  parse_oidc-update_all users name config a =
      let (contexts, current) = update_all-contexts change users config in
      parse_oidc-kept parse_int (update_all change users config) config name contexts current
        (λ user. parse_user-update_all users user config a)

-- Users that are picked by a test that implies acceptance are accepted.
module _ (test select : Text → Bool) where
  find_behind :
      (user k : Text) (info : Option AuthInfo) (m : Assoc (Option AuthInfo))
      → lookup k m ≡ none
      → has_command (find user m) test ≡ true
      → has_command (find user ((k, info) ∷ m)) test ≡ true
  unfolding lookup
  find_behind user k info m absent h = elim (Bool-cases (text_eq k user)) [
    | inr e ↦ subst (λ i. has_command i test ≡ true) (sym (find_other user k info m e)) h
    | inl e ↦ absurd (ground (arith, text_eq_sound k user e))
  ]

  All-behind :
      (users : List Text) (k : Text) (info : Option AuthInfo) (m : Assoc (Option AuthInfo))
      → lookup k m ≡ none
      → All (λ u. has_command (find u m) test ≡ true) users
      → All (λ u. has_command (find u ((k, info) ∷ m)) test ≡ true) users
  All-behind [] k info m absent a = tt
  All-behind (user ∷ users) k info m absent a =
      (find_behind user k info m absent a.0, All-behind users k info m absent a.1)

  pub users_where-All :
      (m : Assoc (Option AuthInfo))
      → Unique m
      → All (λ u. has_command (find u m) test ≡ true) (users_where test select m)
  unfolding users_where lookup
  users_where-All [] u = tt
  users_where-All ((k, info) ∷ m) u =
      let behind = All-behind (users_where test select m) k info m u.0 (users_where-All m u.1) in
      elim (Bool-cases (has_command info test && select k)) [
        | inl e ↦
            subst (All (λ u. has_command (find u ((k, info) ∷ m)) test ≡ true))
              (sym (users_where-yes test select k info m e))
              (ground (arith, text_eq_refl k), behind)
        | inr e ↦
            subst (All (λ u. has_command (find u ((k, info) ∷ m)) test ≡ true))
              (sym (users_where-no test select k info m e)) behind
      ]
