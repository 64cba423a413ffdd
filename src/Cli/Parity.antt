-- ===== src/Cli/Parity.antt =====
-- The user entry of `setup install`, read back by `login`, `check` and `refresh`.
use kubelogin_daemon.Prelude.{
  ◌≡◌, refl, Bool, true, false, not, ◌&&◌, Option, List, [], ◌∷◌, ◌++◌, map, if◌then◌else◌, inl,
  inr, All, ap, ◌∙◌, Bool-cases,
}
use kubelogin_daemon.Text.{Text, codes, text_eq, is_empty, has_prefix}
use kubelogin_daemon.Strings.{assign, lacks, cut_at}
use kubelogin_daemon.Assoc.{Unique}
use kubelogin_daemon.Cli.Options.{ℤ, ParsedConfig, empty_config, set_flag, is_on}
use kubelogin_daemon.Cli.Args.{parse_args, parse_exec_args, read_flag, normalize, take_value}
use kubelogin_daemon.Cli.Forms.{parse_option}
use kubelogin_daemon.Cli.Segments.{
  IsScope, IsKey, insert_all-Apart, Apart-nil, parse_scopes, parse_params, parse_headers,
  parse_secret, parse_username,
}
use kubelogin_daemon.Cli.Flags.{OidcFlags}
use kubelogin_daemon.Cli.Install.{given, param_arg, install_exec_args}

-- The flags of `setup install` that the arguments can hold.
abbrev pub IsInstallable : OidcFlags → Type 0
IsInstallable f =
    All IsScope f.extra_scopes
    × All IsKey f.extra_params
    × Unique f.extra_params
    × All IsKey f.request_headers
    × Unique f.request_headers

-- The grant type is written unless it is the default.
abbrev pub written_grant : Text → Bool
written_grant grant = not (is_empty grant) && not (text_eq grant (codes "auto"))

abbrev pub installed : OidcFlags → ParsedConfig
installed f = record empty_config {
  issuer_url = f.issuer_url;
  client_id = f.client_id;
  client_secret = f.client_secret;
  extra_scopes = f.extra_scopes;
  extra_params = f.extra_params;
  request_headers = f.request_headers;
  username = f.username;
  grant_type = if written_grant f.grant_type then f.grant_type else [];
  use_access_token = f.use_access_token;
}

module _ (parse_int : Text → Option ℤ) where
  parse_head :
      (cfg : ParsedConfig) (issuer client : Text) (rest : List Text)
      → parse_args parse_int false cfg (
          codes "get-token"
          ∷ assign (codes "--oidc-issuer-url") issuer
          ∷ assign (codes "--oidc-client-id") client
          ∷ rest)
        ≡ parse_args parse_int false (record cfg { issuer_url = issuer; client_id = client }) rest
  unfolding set_flag text_eq lacks parse_args has_prefix
  parse_head cfg issuer client rest =
      parse_option parse_int cfg (codes "oidc-issuer-url") issuer
        (assign (codes "--oidc-client-id") client ∷ rest) refl
      ∙ parse_option parse_int (record cfg { issuer_url = issuer }) (codes "oidc-client-id") client
          rest refl

  parse_grant :
      (cfg : ParsedConfig) (grant : Text) (rest : List Text)
      → cfg.grant_type ≡ []
      → parse_args parse_int false cfg
          (given (written_grant grant) (assign (codes "--grant-type") grant) ++ rest)
        ≡ parse_args parse_int false
            (record cfg { grant_type = if written_grant grant then grant else [] })
            rest
  unfolding set_flag text_eq lacks
  parse_grant cfg grant rest h = elim (Bool-cases (written_grant grant)) [
    | inl e ↦ rw e (parse_option parse_int cfg (codes "grant-type") grant rest refl)
    | inr e ↦ rw e (ap (λ t. parse_args parse_int false (record cfg { grant_type = t }) rest) h)
  ]

  parse_access :
      (cfg : ParsedConfig) (on : Bool)
      → cfg.use_access_token ≡ false
      → parse_args parse_int false cfg (given on (codes "--oidc-use-access-token"))
        ≡ record cfg { use_access_token = on }
  unfolding set_flag text_eq parse_args has_prefix normalize read_flag take_value cut_at is_on
  parse_access cfg true h = refl
  parse_access cfg false h = ap (λ t. record cfg { use_access_token = t }) h

  parse_rest :
      (cfg : ParsedConfig) (f : OidcFlags)
      → cfg.username ≡ []
      → cfg.grant_type ≡ []
      → cfg.use_access_token ≡ false
      → parse_args parse_int false cfg (
          given (not (is_empty f.username)) (assign (codes "--username") f.username)
          ++ (given (written_grant f.grant_type) (assign (codes "--grant-type") f.grant_type)
              ++ given f.use_access_token (codes "--oidc-use-access-token")))
        ≡ record cfg {
          username = f.username;
          grant_type = if written_grant f.grant_type then f.grant_type else [];
          use_access_token = f.use_access_token;
        }
  parse_rest cfg f u g a =
      parse_username parse_int cfg f.username
        (given (written_grant f.grant_type) (assign (codes "--grant-type") f.grant_type)
          ++ given f.use_access_token (codes "--oidc-use-access-token"))
        u
      ∙ parse_grant (record cfg { username = f.username }) f.grant_type
          (given f.use_access_token (codes "--oidc-use-access-token")) g
      ∙ parse_access
          (record cfg {
            username = f.username;
            grant_type = if written_grant f.grant_type then f.grant_type else [];
          })
          f.use_access_token a

  -- The arguments that `setup install` writes for some flags are read back as these flags, where
  -- no extra scope is empty, untrimmed or has a comma, no key of an extra parameter or request
  -- header has a `=`, and the keys of each of the two maps are distinct. A grant type that is
  -- `auto` is read back as none.
  pub parse-install_exec_args :
      (f : OidcFlags)
      → IsInstallable f
      → parse_exec_args parse_int (install_exec_args f) ≡ installed f
  unfolding parse_exec_args install_exec_args
  parse-install_exec_args f (scopes, params, params_unique, headers, headers_unique) =
      let rest : List Text =
        given (not (is_empty f.username)) (assign (codes "--username") f.username)
        ++ (given (written_grant f.grant_type) (assign (codes "--grant-type") f.grant_type)
            ++ given f.use_access_token (codes "--oidc-use-access-token")) in
      let header_args : List Text =
        map (param_arg (codes "--oidc-request-header")) f.request_headers ++ rest in
      let param_args : List Text =
        map (param_arg (codes "--oidc-extra-param")) f.extra_params ++ header_args in
      let scope_args : List Text =
        map (assign (codes "--oidc-extra-scope")) f.extra_scopes ++ param_args in
      let c1 : ParsedConfig = record empty_config {
        issuer_url = f.issuer_url;
        client_id = f.client_id;
      } in
      let c2 : ParsedConfig = record c1 { client_secret = f.client_secret } in
      let c3 : ParsedConfig = record c2 { extra_scopes = f.extra_scopes } in
      let c4 : ParsedConfig = record c3 { extra_params = f.extra_params } in
      let c5 : ParsedConfig = record c4 { request_headers = f.request_headers } in
      parse_head empty_config f.issuer_url f.client_id (
        given (not (is_empty f.client_secret))
          (assign (codes "--oidc-client-secret") f.client_secret)
        ++ scope_args)
      ∙ parse_secret parse_int c1 f.client_secret scope_args refl
      ∙ parse_scopes parse_int c2 f.extra_scopes param_args scopes
      ∙ parse_params parse_int c3 f.extra_params header_args params
      ∙ ap (λ m. parse_args parse_int false (record c3 { extra_params = m }) header_args)
          (insert_all-Apart f.extra_params [] params_unique (Apart-nil f.extra_params))
      ∙ parse_headers parse_int c4 f.request_headers rest headers
      ∙ ap (λ m. parse_args parse_int false (record c4 { request_headers = m }) rest)
          (insert_all-Apart f.request_headers [] headers_unique (Apart-nil f.request_headers))
      ∙ parse_rest c5 f refl refl refl
