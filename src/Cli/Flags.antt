-- ===== src/Cli/Flags.antt =====
-- main.go: `oidcFlags`, its completion from a kubeconfig, and the cache key that it makes.
use kubelogin_daemon.Prelude.{
  Bool, true, false, not, ◌&&◌, ◌||◌, ◌==◌, Option, none, some, List, [], ◌∷◌, ltb, if◌then◌else◌,
  ◌⊎◌, inl, inr,
}
use kubelogin_daemon.Text.{Text, codes, text_eq, is_empty}
use kubelogin_daemon.Assoc.{Assoc}
use kubelogin_daemon.Refresher.{Provider, TlsConfig, Result}
use kubelogin_daemon.Cli.Options.{ℤ, pos, negsuc, PkceMethod, auto, never, s256, ParsedConfig}
use kubelogin_daemon.Cli.Kubeconfig.{
  Kubeconfig, CliError, read_kubeconfig, issuer_and_client_required, password_unsupported,
  client_credentials_unsupported, parse_oidc_from_kubeconfig,
}

-- `oidcFlags`; `changed_use_access_token` is `cmd.Flags().Changed("oidc-use-access-token")`.
pub record OidcFlags : Type 0 where
  pub context_name : Text
  pub issuer_url : Text
  pub client_id : Text
  pub client_secret : Text
  pub extra_scopes : List Text
  pub extra_params : Assoc Text
  pub request_headers : Assoc Text
  pub username : Text
  pub grant_type : Text
  pub use_access_token : Bool
  pub changed_use_access_token : Bool
  pub redirect_url : Text
  pub pkce_method : PkceMethod
  pub tls_config : TlsConfig
  pub skip_open_browser : Bool
  pub listen_address : List Text
  pub browser_command : Text
  pub authentication_timeout_sec : ℤ
  pub local_server_cert_file : Text
  pub local_server_key_file : Text
  pub open_url_after_authentication : Text
  pub redirect_url_hostname : Text
  pub token_cache_storage : Text

-- What a command starts from: no flag on the command line but perhaps `--context`.
abbrev pub no_flags : Text → OidcFlags
no_flags context = record {
  context_name = context;
  issuer_url = [];
  client_id = [];
  client_secret = [];
  extra_scopes = [];
  extra_params = [];
  request_headers = [];
  username = [];
  grant_type = codes "auto";
  use_access_token = false;
  changed_use_access_token = false;
  redirect_url = [];
  pkce_method = auto;
  tls_config = record {
    ca_cert_filename = [];
    ca_cert_data = [];
    skip_tls_verify = false;
    renegotiation = 0;
  };
  skip_open_browser = false;
  listen_address = [];
  browser_command = [];
  authentication_timeout_sec = pos 0;
  local_server_cert_file = [];
  local_server_key_file = [];
  open_url_after_authentication = [];
  redirect_url_hostname = [];
  token_cache_storage = [];
}

-- `len(xs) == 0`.
abbrev pub is_nil {ℓ} : {A : Type ℓ} → List A → Bool
is_nil [] = true
is_nil (x ∷ xs) = false

-- `if f == "" { f = parsed }`, for texts and for slices and maps.
abbrev pub or_text : Text → Text → Text
or_text own parsed = if is_empty own then parsed else own

abbrev pub or_list {ℓ} : {A : Type ℓ} → List A → List A → List A
or_list own parsed = if is_nil own && not (is_nil parsed) then parsed else own

abbrev pub is_auto : PkceMethod → Bool
is_auto auto = true
is_auto never = false
is_auto s256 = false

abbrev pub is_zero : ℤ → Bool
is_zero (pos n) = n == 0
is_zero (negsuc n) = false

abbrev pub is_positive : ℤ → Bool
is_positive (pos n) = ltb 0 n
is_positive (negsuc n) = false

unfoldable pub fill_in : OidcFlags → ParsedConfig → OidcFlags
fill_in f parsed = record f {
  issuer_url = or_text f.issuer_url parsed.issuer_url;
  client_id = or_text f.client_id parsed.client_id;
  client_secret = or_text f.client_secret parsed.client_secret;
  extra_scopes = or_list f.extra_scopes parsed.extra_scopes;
  grant_type =
      if text_eq f.grant_type (codes "auto") && not (is_empty parsed.grant_type)
      then parsed.grant_type
      else f.grant_type;
  use_access_token =
      if not f.changed_use_access_token then parsed.use_access_token else f.use_access_token;
  username =
      if is_empty f.username && not (is_empty parsed.username) then parsed.username else f.username;
  extra_params = or_list f.extra_params parsed.extra_params;
  request_headers = or_list f.request_headers parsed.request_headers;
  redirect_url = or_text f.redirect_url parsed.redirect_url;
  pkce_method = if is_auto f.pkce_method then parsed.pkce_method else f.pkce_method;
  tls_config =
      if is_nil f.tls_config.ca_cert_filename && is_nil f.tls_config.ca_cert_data
      then record {
        ca_cert_filename = parsed.ca_cert_filename;
        ca_cert_data = parsed.ca_cert_data;
        skip_tls_verify = parsed.skip_tls_verify;
        renegotiation = parsed.renegotiation;
      }
      else f.tls_config;
  skip_open_browser =
      if not f.skip_open_browser then parsed.skip_open_browser else f.skip_open_browser;
  listen_address = or_list f.listen_address parsed.listen_address;
  browser_command = or_text f.browser_command parsed.browser_command;
  authentication_timeout_sec =
      if is_zero f.authentication_timeout_sec && is_positive parsed.authentication_timeout_sec
      then parsed.authentication_timeout_sec
      else f.authentication_timeout_sec;
  local_server_cert_file = or_text f.local_server_cert_file parsed.local_server_cert_file;
  local_server_key_file = or_text f.local_server_key_file parsed.local_server_key_file;
  open_url_after_authentication =
      or_text f.open_url_after_authentication parsed.open_url_after_authentication;
  redirect_url_hostname = or_text f.redirect_url_hostname parsed.redirect_url_hostname;
  token_cache_storage = or_text f.token_cache_storage parsed.token_cache_storage;
}

unfoldable pub resolve_from_kubeconfig :
    (Text → Option ℤ) → Result Kubeconfig → OidcFlags → CliError ⊎ OidcFlags
unfolding fill_in parse_oidc_from_kubeconfig
resolve_from_kubeconfig parse_int loaded f =
    if not (is_empty f.issuer_url) && not (is_empty f.client_id)
    then inr f
    else elim (parse_oidc_from_kubeconfig parse_int loaded f.context_name) [
      | inl e ↦ inl (read_kubeconfig e)
      | inr parsed ↦ inr (fill_in f parsed)
    ]

-- `tokencache.Key`.
pub record Key : Type 0 where
  pub provider : Provider
  pub pkce_method : PkceMethod
  pub tls_config : TlsConfig
  pub username : Text
  pub extra_params : Assoc Text

-- The key whose checksum `buildCacheKey` returns.
unfoldable pub key_of : OidcFlags → Key
key_of f = record {
  provider = record {
    issuer_url = f.issuer_url;
    client_id = f.client_id;
    client_secret = f.client_secret;
    extra_scopes = f.extra_scopes;
    use_access_token = f.use_access_token;
    request_headers = f.request_headers;
    redirect_url = f.redirect_url;
  };
  pkce_method = f.pkce_method;
  tls_config = f.tls_config;
  username = f.username;
  extra_params = f.extra_params;
}

unfoldable pub validate : OidcFlags → Option CliError
validate f =
    if is_empty f.issuer_url || is_empty f.client_id then some issuer_and_client_required else none

unfoldable pub map_grant_type : Text → CliError ⊎ Text
map_grant_type gt =
    if text_eq gt (codes "device-code") || text_eq gt (codes "authcode-browser")
    then inr gt
    else if text_eq gt (codes "auto")
    then inr (codes "device-code")
    else if text_eq gt (codes "authcode")
    then inr (codes "authcode-browser")
    else if text_eq gt (codes "authcode-keyboard")
    then inr (codes "device-code")
    else if text_eq gt (codes "password")
    then inl password_unsupported
    else if text_eq gt (codes "client-credentials")
    then inl client_credentials_unsupported
    else inr gt
