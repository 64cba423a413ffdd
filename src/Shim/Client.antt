-- ===== src/Shim/Client.antt =====
-- pkg/shim/shim.go: `GetTokenFromDaemon`, and `runGetToken` of main.go.
use kubelogin_daemon.Prelude.{
  ℕ, zero, suc, ◌+◌, ◌-◌, ◌*◌, Bool, true, false, not, ◌&&◌, ◌==◌, Option, none, some, leb, ltb,
  if◌then◌else◌, ◌⊎◌, inl, inr,
}
use kubelogin_daemon.Text.{Text}
use kubelogin_daemon.State.{Time}
use kubelogin_daemon.Ipc.{
  Request, Response, Status, success, error, needs_auth, login_in_progress, ErrCode, token_revoked,
  refresh_failed, protocol_version,
}
use kubelogin_daemon.Shim.Requests.{
  Os, Session, IpcError, is_connection_refused, is_no_such_file, second, millisecond,
  get_token_request, send_request_with_timeout, send_shutdown, ShutdownError, call_auto_start,
  call_probe, call_kill, call_sleep,
}

pub data ShimError : Type 0 where
  deadline_exceeded deadline_after_mismatch deadline_after_restart : ShimError
  connect_to_daemon connect_after_auto_start connect_after_restart : IpcError → ShimError
  auto_start_failed restart_failed : Text → ShimError
  shutdown_failed : ShutdownError → ShimError

-- `getTokenTimeout`.
abbrev pub get_token_timeout : ℕ
get_token_timeout = 12 * second

abbrev pub is_error : Status → Bool
is_error error = true
is_error success = false
is_error needs_auth = false
is_error login_in_progress = false

-- The session after a call, and what the call returned.
abbrev pub Outcome : Type 0 → Type 0
Outcome W = Session W × (ShimError ⊎ Response)

-- One round of the polling for the end of the old daemon.
unfoldable pub polled :
    {W : Type 0} → (Session W → Session W × Bool) → Session W × Bool → Session W × Bool
polled again (s, true) = again s
polled again (s, false) = (s, true)

unfoldable pub restarted_reply : {W : Type 0} → Session W × (IpcError ⊎ Response) → Outcome W
restarted_reply (s, inl e) = (s, inl (connect_after_restart e))
restarted_reply (s, inr resp) = (s, inr resp)

unfoldable pub is_mismatch : Response → Bool
is_mismatch resp = is_error resp.status && not (resp.daemon_version == protocol_version)

module _ {W : Type 0} (os : Os W) where
  -- What follows the start of a daemon that the first attempt has missed.
  unfoldable pub once_started : (Session W → Outcome W) → Session W × Option Text → Outcome W
  once_started again (s, some text) = (s, inl (auto_start_failed text))
  once_started again (s, none) = again s

  unfoldable pub start_or_wait : (Bool → Session W → Outcome W) → Bool → Session W → Outcome W
  unfolding once_started
  start_or_wait again true s = again true (call_sleep os (200 * millisecond) s)
  start_or_wait again false s = once_started (again true) (call_auto_start os s)

  -- What follows one attempt.
  unfoldable pub retry :
      (IpcError → Bool → Session W → Outcome W)
      → Bool
      → Session W × (IpcError ⊎ Response)
      → Outcome W
  unfolding start_or_wait
  retry again started (s, inr resp) = (s, inr resp)
  retry again started (s, inl e) =
      if not (is_connection_refused e) && not (is_no_such_file e)
      then (s, inl (connect_to_daemon e))
      else start_or_wait (again e) started s

  -- The loop of at most so many attempts, with the last error.
  unfoldable pub connect : Request → ℕ → ℕ → IpcError → Bool → Session W → Outcome W
  unfolding retry
  connect req deadline zero last started s = (s, inl (connect_after_auto_start last))
  connect req deadline (suc n) last started s =
      if leb deadline (os.now s.world)
      then (s, inl deadline_exceeded)
      else retry (λ e again t. connect req deadline n e again t) started
          (send_request_with_timeout os req (deadline - os.now s.world) s)

  -- The polling for the end of the old daemon.
  unfoldable pub poll_gone : ℕ → Session W → Session W × Bool
  unfolding polled
  poll_gone zero s = (s, false)
  poll_gone (suc n) s = polled (poll_gone n) (call_probe os (call_sleep os (100 * millisecond) s))

  unfoldable pub ask_restarted : Request → ℕ → Session W × Option Text → Outcome W
  unfolding restarted_reply
  ask_restarted req deadline (s, some text) = (s, inl (restart_failed text))
  ask_restarted req deadline (s, none) =
      if leb deadline (os.now s.world)
      then (s, inl deadline_after_restart)
      else restarted_reply (send_request_with_timeout os req (deadline - os.now s.world) s)

  -- A daemon of this version, started and asked.
  unfoldable pub reconnect : Request → ℕ → Session W → Outcome W
  unfolding ask_restarted
  reconnect req deadline s =
      if leb deadline (os.now s.world)
      then (s, inl deadline_after_mismatch)
      else ask_restarted req deadline (call_auto_start os s)

  unfoldable pub after_kill : Session W × Bool → Session W
  after_kill (s, true) = call_sleep os (200 * millisecond) s
  after_kill (s, false) = s

  -- The old daemon is killed by its number, where it is known and not the shim's own.
  unfoldable pub kill_old : Request → ℕ → ℕ → Option ShutdownError → Session W → Outcome W
  unfolding reconnect after_kill
  kill_old req deadline old_pid refusal s =
      if ltb 0 old_pid && not (old_pid == os.own_pid)
      then reconnect req deadline (after_kill (call_kill os old_pid s))
      else elim refusal [ some e ↦ (s, inl (shutdown_failed e)) | none ↦ reconnect req deadline s ]

  unfoldable pub kill_unless_gone :
      Request → ℕ → ℕ → Option ShutdownError → Session W × Bool → Outcome W
  unfolding kill_old
  kill_unless_gone req deadline old_pid refusal (s, true) = reconnect req deadline s
  kill_unless_gone req deadline old_pid refusal (s, false) = kill_old req deadline old_pid refusal s

  -- What follows a version mismatch.
  unfoldable pub restart : Request → ℕ → ℕ → Session W × Option ShutdownError → Outcome W
  unfolding poll_gone kill_unless_gone
  restart req deadline old_pid (s, refusal) =
      kill_unless_gone req deadline old_pid refusal (poll_gone 6 s)

  unfoldable pub finish : Request → ℕ → Outcome W → Outcome W
  unfolding restart is_mismatch
  finish req deadline (s, inl e) = (s, inl e)
  finish req deadline (s, inr resp) =
      if is_mismatch resp then restart req deadline resp.pid (send_shutdown os s) else (s, inr resp)

  unfoldable pub get_token_from_daemon : Text → Request → Session W → Outcome W
  unfolding connect finish get_token_request
  get_token_from_daemon cache_key req s =
      finish (get_token_request cache_key req) (os.now s.world + get_token_timeout) (
        connect (get_token_request cache_key req) (os.now s.world + get_token_timeout) 3
          IpcError.no_such_file false s)

-- What `runGetToken` prints: a credential, or a message to the user.
pub data Output : Type 0 where
  credential : Text → Time → Output
  not_authenticated login_runs session_expired : Output

abbrev pub is_expired_code : Option ErrCode → Bool
is_expired_code none = false
is_expired_code (some token_revoked) = true
is_expired_code (some refresh_failed) = true
is_expired_code (some _) = false

unfoldable pub run_get_token : ShimError ⊎ Response → Output
run_get_token (inl e) = not_authenticated
run_get_token (inr resp) = elim resp.status [
  | success ↦ credential resp.token resp.expiry
  | needs_auth ↦ not_authenticated
  | login_in_progress ↦ login_runs
  | error ↦ if is_expired_code resp.error_code then session_expired else not_authenticated
]
