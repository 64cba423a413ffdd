-- ===== src/Cli/Login.antt =====
-- main.go: `runLogin`, over the session of the shim. The calls of the shim go through its log; the
-- interactive login of `shim.PerformAuth` is a parameter. An interrupt is considered while it runs.
use kubelogin_daemon.Prelude.{
  ℕ, zero, suc, ◌*◌, Bool, true, false, ◌==◌, Option, none, some, List, if◌then◌else◌, ◌⊎◌, inl,
  inr,
}
use kubelogin_daemon.Text.{Text, codes, text_eq}
use kubelogin_daemon.Assoc.{Assoc}
use kubelogin_daemon.Refresher.{Provider, TlsConfig, TokenSet, Result, err, ok}
use kubelogin_daemon.Ipc.{
  Request, Response, Status, Command, success, error, needs_auth, login_in_progress,
}
use kubelogin_daemon.Shim.Requests.{
  Os, Session, IpcError, empty_request, store_token_request, begin_login_request,
  cancel_login_request, health_request, send_request, send_shutdown, call_auto_start, call_probe,
  call_kill, call_sleep, millisecond, is_success,
}
use kubelogin_daemon.Cli.Options.{ℤ}
use kubelogin_daemon.Cli.Flags.{OidcFlags, Key, key_of, map_grant_type}

-- `shim.AuthOptions`.
pub record AuthOptions : Type 0 where
  pub skip_open_browser : Bool
  pub authentication_timeout : ℤ
  pub listen_address : List Text
  pub browser_command : Text
  pub local_server_cert_file : Text
  pub local_server_key_file : Text
  pub open_url_after_authentication : Text
  pub extra_params : Assoc Text
  pub tls_config : TlsConfig

pub data AuthResult : Type 0 where
  authenticated : TokenSet → AuthResult
  auth_error : Text → AuthResult
  interrupted : AuthResult

-- What a login needs besides the shim's calls: the checksum of a key, `findPIDBySocket`, and
-- `PerformAuth`.
pub record LoginOs (W : Type 0) : Type 0 where
  pub checksum : Key → Result Text
  pub socket_pid : W → ℕ
  pub perform_auth : Provider → Text → AuthOptions → W → W × AuthResult

pub data LoginResult : Type 0 where
  invalid_configuration cannot_start cannot_connect unsupported_grant : LoginResult
  login_interrupted cannot_restart not_saved : LoginResult
  authentication_failed : Text → LoginResult
  logged_in : Response → LoginResult

abbrev pub is_in_progress : Status → Bool
is_in_progress login_in_progress = true
is_in_progress success = false
is_in_progress error = false
is_in_progress needs_auth = false

unfoldable pub login_provider : OidcFlags → Provider
login_provider f = record {
  issuer_url = f.issuer_url;
  client_id = f.client_id;
  client_secret = f.client_secret;
  extra_scopes = f.extra_scopes;
  use_access_token = f.use_access_token;
  request_headers = f.request_headers;
  redirect_url = f.redirect_url;
}

-- A device code is never opened in a browser.
unfoldable pub login_options : OidcFlags → Text → AuthOptions
login_options f grant = record {
  skip_open_browser = if text_eq grant (codes "device-code") then true else f.skip_open_browser;
  authentication_timeout = f.authentication_timeout_sec;
  listen_address = f.listen_address;
  browser_command = f.browser_command;
  local_server_cert_file = f.local_server_cert_file;
  local_server_key_file = f.local_server_key_file;
  open_url_after_authentication = f.open_url_after_authentication;
  extra_params = f.extra_params;
  tls_config = f.tls_config;
}

-- The request that carries the provider's configuration, of `runLogin` and `runRefresh`.
unfoldable pub provider_request : OidcFlags → Request
provider_request f = record (empty_request Command.store_token) {
  issuer_url = f.issuer_url;
  client_id = f.client_id;
  client_secret = f.client_secret;
  extra_scopes = f.extra_scopes;
  extra_params = f.extra_params;
  use_access_token = f.use_access_token;
  request_headers = f.request_headers;
  redirect_url = f.redirect_url;
  tls_config = f.tls_config;
}

-- A login that goes on, or the result that ends it.
abbrev pub Phase : Type 0 → Type 0
Phase W = Session W × Option LoginResult

abbrev pub Ended : Type 0 → Type 0
Ended W = Session W × LoginResult

module _ {W : Type 0} (os : Os W) (more : LoginOs W) where
  unfoldable pub pid_of : Session W → IpcError ⊎ Response → ℕ
  pid_of s (inl e) = more.socket_pid s.world
  pid_of s (inr resp) = if resp.pid == 0 then more.socket_pid s.world else resp.pid

  -- `killDaemonProcess`, whose error is ignored.
  unfoldable pub kill_running : Session W → Session W
  unfolding pid_of
  kill_running s =
      let (asked, reply) = send_request os health_request s in
      let pid = pid_of asked reply in
      if pid == 0 then asked else if pid == os.own_pid then asked else (call_kill os pid asked).0

  -- The wait for the old transport to go away.
  unfoldable pub wait_gone : ℕ → Session W → Session W
  wait_gone zero s = s
  wait_gone (suc n) s =
      let (probed, alive) = call_probe os s in
      elim alive [ true ↦ wait_gone n (call_sleep os (200 * millisecond) probed) | false ↦ probed ]

  unfoldable pub replace_daemon : Session W → Session W × Option Text
  unfolding kill_running wait_gone
  replace_daemon s = call_auto_start os (wait_gone 10 (kill_running s))

  unfoldable pub after_health : Session W × (IpcError ⊎ Response) → Session W × Option Text
  unfolding replace_daemon
  after_health (s, inl e) = call_auto_start os s
  after_health (s, inr resp) = if is_success resp.status then (s, none) else replace_daemon s

  -- `ensureHealthyDaemon`.
  unfoldable pub ensure_healthy : Session W → Session W × Option Text
  unfolding after_health
  ensure_healthy s = after_health (send_request os health_request s)

  unfoldable pub begun : (Session W → Phase W) → Session W × (IpcError ⊎ Response) → Phase W
  begun otherwise (s, inl e) = (s, some cannot_connect)
  begun otherwise (s, inr resp) = if is_in_progress resp.status then otherwise s else (s, none)

  unfoldable pub begin_restarted : Text → Session W × Option Text → Phase W
  unfolding begun
  begin_restarted key (s, some e) = (s, some cannot_start)
  begin_restarted key (s, none) =
      begun (λ s. (s, none)) (send_request os (begin_login_request key) s)

  -- A login that is stuck after the cancel: the daemon is stopped and started.
  unfoldable pub begin_by_force : Text → Session W → Phase W
  unfolding begin_restarted
  begin_by_force key s =
      begin_restarted key
        (call_auto_start os (call_sleep os (300 * millisecond) (send_shutdown os s).0))

  -- A login that is under way: it is cancelled.
  unfoldable pub begin_again : Text → Session W → Phase W
  unfolding begin_by_force
  begin_again key s =
      let cancelled = (send_request os (cancel_login_request key) s).0 in
      begun (begin_by_force key) (send_request os (begin_login_request key) cancelled)

  unfoldable pub begin : Text → Session W → Phase W
  unfolding begin_again
  begin key s = begun (begin_again key) (send_request os (begin_login_request key) s)

  unfoldable pub cancel : Text → LoginResult → Session W → Ended W
  cancel key result s = ((send_request os (cancel_login_request key) s).0, result)

  unfoldable pub stored_again : Session W × (IpcError ⊎ Response) → Ended W
  stored_again (s, inl e) = (s, not_saved)
  stored_again (s, inr resp) =
      if is_success resp.status then (s, logged_in resp) else (s, not_saved)

  unfoldable pub store_restarted : Request → Session W × Option Text → Ended W
  unfolding stored_again
  store_restarted req (s, some e) = (s, cannot_restart)
  store_restarted req (s, none) = stored_again (send_request os req s)

  unfoldable pub stored : Request → Session W × (IpcError ⊎ Response) → Ended W
  unfolding store_restarted
  stored req (s, inl e) = store_restarted req (replace_daemon s)
  stored req (s, inr resp) =
      if is_success resp.status then (s, logged_in resp) else store_restarted req (replace_daemon s)

  -- The token set is stored, or the login cancelled.
  unfoldable pub after_auth : Text → OidcFlags → Session W × AuthResult → Ended W
  unfolding cancel stored
  after_auth key f (s, auth_error e) = cancel key (authentication_failed e) s
  after_auth key f (s, interrupted) =
      cancel key login_interrupted (send_request os (cancel_login_request key) s).0
  after_auth key f (s, authenticated tokens) =
      let req = store_token_request key (provider_request f) tokens.id_token tokens.refresh_token in
      stored req (send_request os req s)

  unfoldable pub authenticate : Text → OidcFlags → Session W → Ended W
  unfolding after_auth
  authenticate key f s = elim (map_grant_type f.grant_type) [
    | inl e ↦ cancel key unsupported_grant s
    | inr grant ↦
        let (w, result) =
          more.perform_auth (login_provider f) grant (login_options f grant) s.world in
        after_auth key f (record s { world = w }, result)
  ]

  unfoldable pub after_begin : Text → OidcFlags → Phase W → Ended W
  unfolding authenticate
  after_begin key f (s, some result) = (s, result)
  after_begin key f (s, none) = authenticate key f s

  unfoldable pub after_ensure : Text → OidcFlags → Session W × Option Text → Ended W
  unfolding begin after_begin
  after_ensure key f (s, some e) = (s, cannot_start)
  after_ensure key f (s, none) = after_begin key f (begin key s)

  unfoldable pub run_login : OidcFlags → Session W → Ended W
  unfolding after_ensure ensure_healthy
  run_login f s = elim (more.checksum (key_of f)) [
    | err e ↦ (s, invalid_configuration)
    | ok key ↦ after_ensure key f (ensure_healthy s)
  ]
