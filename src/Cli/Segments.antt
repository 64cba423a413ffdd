-- ===== src/Cli/Segments.antt =====
-- `parseExecArgs` over the parts of the arguments that `runSetupInstall` writes.
use kubelogin_daemon.Prelude.{
  ◌≡◌, refl, true, false, not, Option, none, List, [], ◌∷◌, ◌++◌, map, if◌then◌else◌, inl, inr,
  arith, All, ap, ◌∙◌, sym, Bool-cases,
}
use kubelogin_daemon.Text.{Text, codes, text_eq, text_eq_iff, is_empty}
use kubelogin_daemon.Strings.{assign, lacks, split_lacking, trim_space, cut_at-assign}
use kubelogin_daemon.Assoc.{Assoc, insert, lookup, Unique, lookup-insert}
use kubelogin_daemon.Cli.Options.{ℤ, ParsedConfig, set_flag, append_scopes, put_pair}
use kubelogin_daemon.Cli.Args.{parse_args}
use kubelogin_daemon.Cli.Forms.{parse_option}
use kubelogin_daemon.Cli.Install.{given, param_arg}

-- A scope as the command line's own flag leaves it: not empty, without a comma, and trimmed.
abbrev pub IsScope : Text → Type 0
IsScope s = (is_empty s ≡ false) × (lacks b',' s ≡ true) × (trim_space s ≡ s)

-- A key of a map flag has no `=`.
abbrev pub IsKey : Text × Text → Type 0
IsKey (k, v) = lacks b'=' k ≡ true

append_nil {ℓ} : {A : Type ℓ} (xs : List A) → xs ++ [] ≡ xs
append_nil [] = refl
append_nil (x ∷ xs) = ap (λ ys. x ∷ ys) (append_nil xs)

append_assoc {ℓ} : {A : Type ℓ} (xs ys zs : List A) → (xs ++ ys) ++ zs ≡ xs ++ (ys ++ zs)
append_assoc [] ys zs = refl
append_assoc (x ∷ xs) ys zs = ap (λ s. x ∷ s) (append_assoc xs ys zs)

insert_absent : (k v : Text) (m : Assoc Text) → lookup k m ≡ none → insert k v m ≡ m ++ (k, v) ∷ []
unfolding insert lookup
insert_absent k v [] h = refl
insert_absent k v ((j, w) ∷ m) h = ground (arith, insert_absent k v m)

-- The entries put into a map one after another.
unfoldable pub insert_all : Assoc Text → Assoc Text → Assoc Text
insert_all [] m = m
insert_all ((k, v) ∷ new) m = insert_all new (insert k v m)

-- No key of the one map is in the other.
abbrev Apart : Assoc Text → Assoc Text → Type 0
Apart new m = All (λ e. lookup e.0 m ≡ none) new

Apart-insert :
    (new : Assoc Text) (k v : Text) (m : Assoc Text)
    → lookup k new ≡ none
    → Apart new m
    → Apart new (insert k v m)
unfolding lookup
Apart-insert [] k v m h a = tt
Apart-insert ((j, w) ∷ new) k v m h a = elim (Bool-cases (text_eq j k)) [
  | inl e ↦ absurd (ground arith)
  | inr e ↦ (
    ground (arith, lookup-insert k j v m, text_eq_iff k j, text_eq_iff j k),
    Apart-insert new k v m (ground arith) a.1,
  )
]

pub insert_all-Apart : (new m : Assoc Text) → Unique new → Apart new m → insert_all new m ≡ m ++ new
unfolding insert_all
insert_all-Apart [] m u a = sym (append_nil m)
insert_all-Apart ((k, v) ∷ new) m u a =
    insert_all-Apart new (insert k v m) u.1 (Apart-insert new k v m u.0 a.1)
    ∙ ap (λ s. s ++ new) (insert_absent k v m a.0)
    ∙ append_assoc m ((k, v) ∷ []) new

pub Apart-nil : (new : Assoc Text) → Apart new []
unfolding lookup
Apart-nil [] = tt
Apart-nil (e ∷ new) = (refl, Apart-nil new)

module _ (parse_int : Text → Option ℤ) where
  pub parse_scopes :
      (cfg : ParsedConfig) (scopes rest : List Text)
      → All IsScope scopes
      → parse_args parse_int false cfg (map (assign (codes "--oidc-extra-scope")) scopes ++ rest)
        ≡ parse_args parse_int false (record cfg { extra_scopes = cfg.extra_scopes ++ scopes }) rest
  unfolding set_flag text_eq lacks append_scopes
  parse_scopes cfg [] rest a =
      ap (λ s. parse_args parse_int false (record cfg { extra_scopes = s }) rest)
        (sym (append_nil cfg.extra_scopes))
  parse_scopes cfg (s ∷ scopes) rest ((given_s, plain, trimmed), a) =
      let longer : List Text = cfg.extra_scopes ++ s ∷ [] in
      parse_option parse_int cfg (codes "oidc-extra-scope") s
        (map (assign (codes "--oidc-extra-scope")) scopes ++ rest) refl
      ∙ ap
          (λ t.
            parse_args parse_int false (record cfg { extra_scopes = t })
              (map (assign (codes "--oidc-extra-scope")) scopes ++ rest))
          (rw (given_s, split_lacking b',' s plain) (rw (trimmed, given_s) refl))
      ∙ parse_scopes (record cfg { extra_scopes = longer }) scopes rest a
      ∙ ap (λ t. parse_args parse_int false (record cfg { extra_scopes = t }) rest)
          (append_assoc cfg.extra_scopes (s ∷ []) scopes)

  put_pair-assign :
      (k v : Text) (m : Assoc Text) → lacks b'=' k ≡ true → put_pair (assign k v) m ≡ insert k v m
  unfolding put_pair
  put_pair-assign k v m plain = rw (cut_at-assign k v plain, put_pair) refl

  given_assign :
      (k v : Text) (m : Assoc Text)
      → (if is_empty (assign k v) then m else put_pair (assign k v) m) ≡ put_pair (assign k v) m
  given_assign [] v m = refl
  given_assign (c ∷ k) v m = refl

  pub parse_params :
      (cfg : ParsedConfig) (params : Assoc Text) (rest : List Text)
      → All IsKey params
      → parse_args parse_int false cfg (map (param_arg (codes "--oidc-extra-param")) params ++ rest)
        ≡ parse_args parse_int false
            (record cfg { extra_params = insert_all params cfg.extra_params })
            rest
  unfolding set_flag text_eq lacks insert_all
  parse_params cfg [] rest a = refl
  parse_params cfg ((k, v) ∷ params) rest a =
      parse_option parse_int cfg (codes "oidc-extra-param") (assign k v)
        (map (param_arg (codes "--oidc-extra-param")) params ++ rest) refl
      ∙ ap
          (λ t.
            parse_args parse_int false (record cfg { extra_params = t })
              (map (param_arg (codes "--oidc-extra-param")) params ++ rest))
          (given_assign k v cfg.extra_params ∙ put_pair-assign k v cfg.extra_params a.0)
      ∙ parse_params (record cfg { extra_params = insert k v cfg.extra_params }) params rest a.1

  pub parse_headers :
      (cfg : ParsedConfig) (headers : Assoc Text) (rest : List Text)
      → All IsKey headers
      → parse_args parse_int false cfg
          (map (param_arg (codes "--oidc-request-header")) headers ++ rest)
        ≡ parse_args parse_int false
            (record cfg { request_headers = insert_all headers cfg.request_headers })
            rest
  unfolding set_flag text_eq lacks insert_all
  parse_headers cfg [] rest a = refl
  parse_headers cfg ((k, v) ∷ headers) rest a =
      parse_option parse_int cfg (codes "oidc-request-header") (assign k v)
        (map (param_arg (codes "--oidc-request-header")) headers ++ rest) refl
      ∙ ap
          (λ t.
            parse_args parse_int false (record cfg { request_headers = t })
              (map (param_arg (codes "--oidc-request-header")) headers ++ rest))
          (given_assign k v cfg.request_headers ∙ put_pair-assign k v cfg.request_headers a.0)
      ∙ parse_headers (record cfg { request_headers = insert k v cfg.request_headers }) headers rest
          a.1

  pub parse_secret :
      (cfg : ParsedConfig) (s : Text) (rest : List Text)
      → cfg.client_secret ≡ []
      → parse_args parse_int false cfg
          (given (not (is_empty s)) (assign (codes "--oidc-client-secret") s) ++ rest)
        ≡ parse_args parse_int false (record cfg { client_secret = s }) rest
  unfolding set_flag text_eq lacks
  parse_secret cfg [] rest h =
      ap (λ t. parse_args parse_int false (record cfg { client_secret = t }) rest) h
  parse_secret cfg (c ∷ s) rest h =
      parse_option parse_int cfg (codes "oidc-client-secret") (c ∷ s) rest refl

  pub parse_username :
      (cfg : ParsedConfig) (s : Text) (rest : List Text)
      → cfg.username ≡ []
      → parse_args parse_int false cfg
          (given (not (is_empty s)) (assign (codes "--username") s) ++ rest)
        ≡ parse_args parse_int false (record cfg { username = s }) rest
  unfolding set_flag text_eq lacks
  parse_username cfg [] rest h =
      ap (λ t. parse_args parse_int false (record cfg { username = t }) rest) h
  parse_username cfg (c ∷ s) rest h =
      parse_option parse_int cfg (codes "username") (c ∷ s) rest refl
