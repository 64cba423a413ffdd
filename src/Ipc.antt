-- ===== src/Ipc.antt =====
-- pkg/daemon/ipc.go: the requests and responses between shim and daemon. Strings that the code
-- only chooses among are the constructors of a type: status, error code, action, and the texts of
-- `Error` and `Message`, with the values that are printed into them.
use kubelogin_daemon.Prelude.{ℕ, Bool, Option, none, some, List, [], ◌≡◌, refl, ◌⊎◌, inl, inr}
use kubelogin_daemon.Text.{Text}
use kubelogin_daemon.Assoc.{Assoc}
use kubelogin_daemon.State.{Time, AuthState}
use kubelogin_daemon.Refresher.{Provider, TlsConfig, OidcRefresher}

abbrev pub protocol_version : ℕ
protocol_version = 2

-- `unknown` is any other command.
pub data Command : Type 0 where
  get_token store_token begin_login cancel_login check refresh health shutdown : Command
  unknown : Text → Command

pub record Request : Type 0 where
  pub version : ℕ
  pub command : Command
  pub cache_key : Text
  pub nonce : Text
  pub issuer_url : Text
  pub client_id : Text
  pub client_secret : Text
  pub extra_scopes : List Text
  pub extra_params : Assoc Text
  pub use_access_token : Bool
  pub request_headers : Assoc Text
  pub redirect_url : Text
  pub force_refresh : Bool
  pub tls_config : TlsConfig
  pub id_token : Text
  pub refresh_token : Text

pub data Status : Type 0 where
  success error needs_auth login_in_progress : Status

pub Status-cases :
    (s : Status) → (s ≡ success) ⊎ ((s ≡ error) ⊎ ((s ≡ needs_auth) ⊎ (s ≡ login_in_progress)))
Status-cases success = inl refl
Status-cases error = inr (inl refl)
Status-cases needs_auth = inr (inr (inl refl))
Status-cases login_in_progress = inr (inr (inr refl))

pub data ErrCode : Type 0 where
  token_expired token_revoked login_in_progress refresh_failed provider_unreachable : ErrCode
  daemon_start_failed daemon_timeout config_error needs_login : ErrCode

pub data Message : Type 0 where
  invalid_request trailing_data invalid_nonce cache_key_required invalid_cache_key : Message
  unsupported_version : ℕ → Message
  unknown_command : Text → Message
  id_token_required token_too_large bad_token_expiry too_many_managers : Message
  login_is_in_progress login_started login_cancelled no_cache_key : Message
  login_in_progress_since : Time → Message
  no_valid_token refresh_will_renew token_refresh_in_progress nothing_to_refresh : Message
  refresh_token_revoked provider_is_unreachable token_refresh_failed : Message
  already_valid token_renewed : Time → Message

pub data Action : Type 0 where
  run_login check_network retry_or_login : Action
  retry_in_5_seconds : Time → Action

-- The `State` of a check response, which has one value that no entry has.
pub data ReportedState : Type 0 where
  auth : AuthState → ReportedState
  needs_refresh : ReportedState

pub record Response : Type 0 where
  pub version : ℕ
  pub daemon_version : ℕ
  pub status : Status
  pub token : Text
  pub expiry : Time
  pub error : Option Message
  pub error_code : Option ErrCode
  pub uptime_seconds : ℕ
  pub token_expiry : Option Time
  pub ready : Option Bool
  pub state : Option ReportedState
  pub access_token_expiry : Option Time
  pub refresh_token_valid : Option Bool
  pub daemon_running : Option Bool
  pub message : Option Message
  pub action : Option Action
  pub login_started_at : Option Time
  pub refreshed : Option Bool
  pub pid : ℕ
  pub token_count : ℕ

-- A response of the present version with a status, and Go's zero values elsewhere.
abbrev pub response : Status → Response
response status = record {
  version = protocol_version;
  daemon_version = protocol_version;
  status = status;
  token = [];
  expiry = 0;
  error = none;
  error_code = none;
  uptime_seconds = 0;
  token_expiry = none;
  ready = none;
  state = none;
  access_token_expiry = none;
  refresh_token_valid = none;
  daemon_running = none;
  message = none;
  action = none;
  login_started_at = none;
  refreshed = none;
  pid = 0;
  token_count = 0;
}

abbrev pub error_response : Message → Response
error_response msg = record (response error) { error = some msg }

abbrev pub error_code_response : ErrCode → Message → Action → Response
error_code_response code msg action = record (response error) {
  error = some msg;
  error_code = some code;
  action = some action;
}

abbrev pub token_response : Text → Time → Response
token_response token expiry = record (response success) { token = token; expiry = expiry }

abbrev pub needs_auth_response : Response
needs_auth_response = record (response needs_auth) {
  error_code = some ErrCode.needs_login;
  message = some no_valid_token;
  action = some run_login;
}

-- `providerFromRequest` of pkg/daemon/server.go.
abbrev pub provider_from_request : Request → Provider
provider_from_request req = record {
  issuer_url = req.issuer_url;
  client_id = req.client_id;
  client_secret = req.client_secret;
  extra_scopes = req.extra_scopes;
  use_access_token = req.use_access_token;
  request_headers = req.request_headers;
  redirect_url = req.redirect_url;
}

-- The refresher that the handlers build from a request.
abbrev pub refresher_of : Request → OidcRefresher
refresher_of req = record {
  provider = provider_from_request req;
  tls_config = req.tls_config;
  extra_params = req.extra_params;
}
