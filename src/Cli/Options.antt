-- ===== src/Cli/Options.antt =====
-- main.go: `parsedOIDCConfig`, and what the switch of `parseExecArgs` does with one flag.
use kubelogin_daemon.Prelude.{
  ℕ, Bool, false, not, ◌||◌, Option, none, some, List, [], ◌∷◌, ◌++◌, if◌then◌else◌,
}
use kubelogin_daemon.Text.{Text, codes, text_eq, is_empty}
use kubelogin_daemon.Strings.{cut_at, split, trim_space}
use kubelogin_daemon.Assoc.{Assoc, insert}

-- Go's `int`, as far as a flag holds one.
pub data ℤ : Type 0 where
  pos negsuc : ℕ → ℤ

-- `oidc.PKCEMethod`.
pub data PkceMethod : Type 0 where
  auto never s256 : PkceMethod

-- `parsedOIDCConfig`; the renegotiation is 0 for never, 1 for once and 2 for freely.
pub record ParsedConfig : Type 0 where
  pub issuer_url : Text
  pub client_id : Text
  pub client_secret : Text
  pub extra_scopes : List Text
  pub grant_type : Text
  pub use_access_token : Bool
  pub username : Text
  pub extra_params : Assoc Text
  pub request_headers : Assoc Text
  pub skip_open_browser : Bool
  pub listen_address : List Text
  pub browser_command : Text
  pub authentication_timeout_sec : ℤ
  pub local_server_cert_file : Text
  pub local_server_key_file : Text
  pub open_url_after_authentication : Text
  pub redirect_url_hostname : Text
  pub force_refresh : Bool
  pub token_cache_dir : Text
  pub token_cache_storage : Text
  pub redirect_url : Text
  pub pkce_method : PkceMethod
  pub ca_cert_filename : List Text
  pub ca_cert_data : List Text
  pub skip_tls_verify : Bool
  pub renegotiation : ℕ

-- `&parsedOIDCConfig{}`.
abbrev pub empty_config : ParsedConfig
empty_config = record {
  issuer_url = [];
  client_id = [];
  client_secret = [];
  extra_scopes = [];
  grant_type = [];
  use_access_token = false;
  username = [];
  extra_params = [];
  request_headers = [];
  skip_open_browser = false;
  listen_address = [];
  browser_command = [];
  authentication_timeout_sec = pos 0;
  local_server_cert_file = [];
  local_server_key_file = [];
  open_url_after_authentication = [];
  redirect_url_hostname = [];
  force_refresh = false;
  token_cache_dir = [];
  token_cache_storage = [];
  redirect_url = [];
  pkce_method = auto;
  ca_cert_filename = [];
  ca_cert_data = [];
  skip_tls_verify = false;
  renegotiation = 0;
}

unfoldable pub parse_pkce_method : Text → PkceMethod
parse_pkce_method s = if text_eq s (codes "S256") then s256 else if is_empty s then auto else never

-- `cfg.extraScopes = append(cfg.extraScopes, s)` for each trimmed piece that is not empty.
unfoldable pub append_scopes : List Text → List Text → List Text
append_scopes scopes [] = scopes
append_scopes scopes (s ∷ pieces) =
    append_scopes (if is_empty (trim_space s) then scopes else scopes ++ trim_space s ∷ []) pieces

-- `m[val[:eqIdx]] = val[eqIdx+1:]`, or `m[val] = ""` where there is no `=`.
unfoldable pub put_pair : Text → Assoc Text → Assoc Text
put_pair val m = elim (cut_at b'=' val) [ some (k, v) ↦ insert k v m | none ↦ insert val [] m ]

-- `append(xs, val)` under the guard `val != ""`.
unfoldable pub append_given : Text → List Text → List Text
append_given val xs = if is_empty val then xs else xs ++ val ∷ []

-- `val != "false"`, the value of a Boolean flag.
unfoldable pub is_on : Text → Bool
is_on val = not (text_eq val (codes "false"))

-- `switch key` of `parseExecArgs`. `parse_int` is `fmt.Sscanf` with `%d`, where it succeeds.
module _ (parse_int : Text → Option ℤ) where
  unfoldable pub set_flag : Text → Text → ParsedConfig → ParsedConfig
  set_flag key val cfg =
      if text_eq key (codes "--oidc-issuer-url")
      then record cfg { issuer_url = val }
      else if text_eq key (codes "--oidc-client-id")
      then record cfg { client_id = val }
      else if text_eq key (codes "--oidc-client-secret")
      then record cfg { client_secret = val }
      else if text_eq key (codes "--oidc-extra-scope")
      then record cfg {
        extra_scopes =
            if is_empty val
            then cfg.extra_scopes
            else append_scopes cfg.extra_scopes (split b',' val);
      }
      else if text_eq key (codes "--grant-type")
      then record cfg { grant_type = val }
      else if text_eq key (codes "--oidc-use-access-token")
      then record cfg { use_access_token = is_on val }
      else if text_eq key (codes "--skip-open-browser")
      then record cfg { skip_open_browser = is_on val }
      else if text_eq key (codes "--listen-address")
      then record cfg { listen_address = append_given val cfg.listen_address }
      else if text_eq key (codes "--browser-command")
      then record cfg { browser_command = val }
      else if text_eq key (codes "--authentication-timeout-sec")
      then (if is_empty val then cfg else elim (parse_int val) [
        | none ↦ cfg
        | some n ↦ record cfg { authentication_timeout_sec = n }
      ])
      else if text_eq key (codes "--local-server-cert")
      then record cfg { local_server_cert_file = val }
      else if text_eq key (codes "--local-server-key")
      then record cfg { local_server_key_file = val }
      else if text_eq key (codes "--open-url-after-authentication")
      then record cfg { open_url_after_authentication = val }
      else if text_eq key (codes "--force-refresh")
      then record cfg { force_refresh = is_on val }
      else if text_eq key (codes "--token-cache-dir")
      then record cfg { token_cache_dir = val }
      else if text_eq key (codes "--token-cache-storage")
      then record cfg { token_cache_storage = val }
      else if text_eq key (codes "--username")
      then record cfg { username = val }
      else if text_eq key (codes "--oidc-auth-request-extra-params")
          || text_eq key (codes "--oidc-extra-param")
      then record cfg {
        extra_params = if is_empty val then cfg.extra_params else put_pair val cfg.extra_params;
      }
      else if text_eq key (codes "--oidc-request-header")
      then record cfg {
        request_headers =
            if is_empty val then cfg.request_headers else put_pair val cfg.request_headers;
      }
      else if text_eq key (codes "--certificate-authority")
      then record cfg { ca_cert_filename = append_given val cfg.ca_cert_filename }
      else if text_eq key (codes "--certificate-authority-data")
      then record cfg { ca_cert_data = append_given val cfg.ca_cert_data }
      else if text_eq key (codes "--insecure-skip-tls-verify")
      then record cfg { skip_tls_verify = is_on val }
      else if text_eq key (codes "--tls-renegotiation-once")
      then (if is_on val then record cfg { renegotiation = 1 } else cfg)
      else if text_eq key (codes "--tls-renegotiation-freely")
      then (if is_on val then record cfg { renegotiation = 2 } else cfg)
      else if text_eq key (codes "--oidc-redirect-url")
      then record cfg { redirect_url = val }
      else if text_eq key (codes "--oidc-pkce-method")
      then record cfg { pkce_method = parse_pkce_method val }
      else if text_eq key (codes "--oidc-use-pkce")
      then (if is_on val then record cfg { pkce_method = s256 } else cfg)
      else if text_eq key (codes "--oidc-redirect-url-hostname")
      then record cfg { redirect_url_hostname = val }
      else cfg
