-- ===== src/Shim/Requests.antt =====
-- pkg/shim/shim.go: the requests of the shim, and one exchange with the daemon.
use kubelogin_daemon.Prelude.{
  ℕ, ◌-◌, ◌*◌, Bool, true, false, Option, none, some, List, [], ◌∷◌, ltb, if◌then◌else◌, ◌⊎◌, inl,
  inr,
}
use kubelogin_daemon.Text.{Text}
use kubelogin_daemon.Strings.{rune_bytes, trim_space}
use kubelogin_daemon.Ipc.{
  Request, Response, Command, protocol_version, get_token, store_token, begin_login, cancel_login,
  check, refresh, health, shutdown, Status, success, error, needs_auth, login_in_progress,
}

-- `daemon.Request{Version: ..., Command: ...}`, and Go's zero values elsewhere.
abbrev pub empty_request : Command → Request
empty_request command = record {
  version = protocol_version;
  command = command;
  cache_key = [];
  nonce = [];
  issuer_url = [];
  client_id = [];
  client_secret = [];
  extra_scopes = [];
  extra_params = [];
  use_access_token = false;
  request_headers = [];
  redirect_url = [];
  force_refresh = false;
  tls_config = record {
    ca_cert_filename = [];
    ca_cert_data = [];
    skip_tls_verify = false;
    renegotiation = 0;
  };
  id_token = [];
  refresh_token = [];
}

-- The request of `GetTokenFromDaemon`.
unfoldable pub get_token_request : Text → Request → Request
get_token_request cache_key req = record req {
  version = protocol_version;
  command = get_token;
  cache_key = cache_key;
}

-- The requests of `StoreToken`, `SendBeginLogin`, `SendCancelLogin`, `SendCheck`, `SendRefresh` and
-- `SendHealth`.
unfoldable pub store_token_request : Text → Request → Text → Text → Request
store_token_request cache_key req id_token refresh_token = record req {
  version = protocol_version;
  command = store_token;
  cache_key = cache_key;
  id_token = id_token;
  refresh_token = refresh_token;
}

unfoldable pub begin_login_request : Text → Request
begin_login_request cache_key = record (empty_request begin_login) { cache_key = cache_key }

unfoldable pub cancel_login_request : Text → Request
cancel_login_request cache_key = record (empty_request cancel_login) { cache_key = cache_key }

unfoldable pub check_request : Text → Request
check_request cache_key = record (empty_request check) { cache_key = cache_key }

unfoldable pub refresh_request : Text → Request → Request
refresh_request cache_key req = record req {
  version = protocol_version;
  command = refresh;
  cache_key = cache_key;
}

unfoldable pub health_request : Request
health_request = empty_request health

-- The errors of a connection, as far as `isConnectionRefused` and `isNoSuchFile` tell them apart.
pub data IpcError : Type 0 where
  connection_refused no_such_file : IpcError
  other_error : Text → IpcError

abbrev pub is_connection_refused : IpcError → Bool
is_connection_refused connection_refused = true
is_connection_refused no_such_file = false
is_connection_refused (other_error e) = false

abbrev pub is_no_such_file : IpcError → Bool
is_no_such_file connection_refused = false
is_no_such_file no_such_file = true
is_no_such_file (other_error e) = false

-- The errors of `sendShutdown`.
pub data ShutdownError : Type 0 where
  request_failed : IpcError → ShutdownError
  rejected : Status → ShutdownError

abbrev pub is_success : Status → Bool
is_success success = true
is_success error = false
is_success needs_auth = false
is_success login_in_progress = false

-- What stands at the path of the nonce.
pub data NonceFile : Type 0 where
  absent symlink unreadable : NonceFile
  contents : Text → NonceFile

-- The first bytes of a text, a rune that they cut apart left out.
unfoldable pub take_bytes : ℕ → Text → Text
take_bytes n [] = []
take_bytes n (c ∷ s) = if ltb n (rune_bytes c) then [] else c ∷ take_bytes (n - rune_bytes c) s

unfoldable pub read_daemon_nonce : NonceFile → Text
unfolding take_bytes
read_daemon_nonce absent = []
read_daemon_nonce symlink = []
read_daemon_nonce unreadable = []
read_daemon_nonce (contents s) = trim_space (take_bytes 1024 s)

-- The calls of the operating system. An exchange dials under one time limit, and writes the request
-- and reads the response under another; `kill` is `os.FindProcess` and `Kill`, and says whether there is the process.
pub record Os (W : Type 0) : Type 0 where
  pub now : W → ℕ
  pub own_pid : ℕ
  pub nonce_file : W → NonceFile
  pub exchange : Request → ℕ → ℕ → W → W × (IpcError ⊎ Response)
  pub auto_start : W → W × Option Text
  pub probe_alive : W → W × Bool
  pub kill : ℕ → W → W × Bool
  pub sleep : ℕ → W → W

pub data Call : Type 0 where
  sent : Request → ℕ → ℕ → Option Response → Call
  auto_started probed : Call
  killed slept : ℕ → Call

pub record Session (W : Type 0) : Type 0 where
  pub world : W
  pub calls : List Call

abbrev pub second : ℕ
second = 1000000000

abbrev pub millisecond : ℕ
millisecond = 1000000

abbrev pub to_option : IpcError ⊎ Response → Option Response
to_option (inl e) = none
to_option (inr resp) = some resp

module _ {W : Type 0} (os : Os W) where
  -- A request with the nonce, under the two limits.
  unfoldable pub send : ℕ → ℕ → Request → Session W → Session W × (IpcError ⊎ Response)
  unfolding read_daemon_nonce
  send dial limit req s =
      let full : Request = record req { nonce = read_daemon_nonce (os.nonce_file s.world) } in
      let (w, reply) = os.exchange full dial limit s.world in
      (record { world = w; calls = sent full dial limit (to_option reply) ∷ s.calls }, reply)

  unfoldable pub send_request : Request → Session W → Session W × (IpcError ⊎ Response)
  unfolding send
  send_request req s = send (5 * second) (30 * second) req s

  unfoldable pub send_request_with_timeout :
      Request → ℕ → Session W → Session W × (IpcError ⊎ Response)
  unfolding send
  send_request_with_timeout req timeout s = send timeout timeout req s

  -- `sendShutdown`.
  unfoldable pub send_shutdown : Session W → Session W × Option ShutdownError
  unfolding send
  send_shutdown s =
      let (s, reply) = send (2 * second) (5 * second) (empty_request shutdown) s in
      (
        s,
        elim reply [
          | inl e ↦ some (request_failed e)
          | inr resp ↦ if is_success resp.status then none else some (rejected resp.status)
        ],
      )

  unfoldable pub call_auto_start : Session W → Session W × Option Text
  call_auto_start s =
      let (w, failure) = os.auto_start s.world in
      (record { world = w; calls = auto_started ∷ s.calls }, failure)

  unfoldable pub call_probe : Session W → Session W × Bool
  call_probe s =
      let (w, alive) = os.probe_alive s.world in
      (record { world = w; calls = probed ∷ s.calls }, alive)

  unfoldable pub call_kill : ℕ → Session W → Session W × Bool
  call_kill pid s =
      let (w, there) = os.kill pid s.world in
      (record { world = w; calls = killed pid ∷ s.calls }, there)

  unfoldable pub call_sleep : ℕ → Session W → Session W
  call_sleep n s = record { world = os.sleep n s.world; calls = slept n ∷ s.calls }
