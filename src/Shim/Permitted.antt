-- ===== src/Shim/Permitted.antt =====
-- What `GetTokenFromDaemon` may do: the requests it sends, and the processes it kills.
use kubelogin_daemon.Prelude.{
  ℕ, zero, suc, ◌+◌, ◌-◌, ◌*◌, ◌≡◌, ◌≢◌, refl, Bool, true, false, not, ◌&&◌, ◌==◌, Option, none,
  some, List, leb, ltb, ◌⊎◌, inl, inr, arith, if_both, All, Option-cases, Bool-cases,
}
use kubelogin_daemon.Text.{Text}
use kubelogin_daemon.Ipc.{Request, Response, Command, protocol_version, get_token}
use kubelogin_daemon.Shim.Requests.{
  Os, Session, Call, sent, auto_started, probed, killed, slept, IpcError, is_connection_refused,
  is_no_such_file, send, send_request_with_timeout, send_shutdown, call_auto_start, call_probe,
  call_kill, call_sleep, millisecond, get_token_request, ShutdownError,
}
use kubelogin_daemon.Shim.Client.{
  Outcome, get_token_timeout, polled, once_started, start_or_wait, retry, connect, poll_gone,
  restarted_reply, ask_restarted, reconnect, after_kill, kill_old, kill_unless_gone, restart,
  is_mismatch, finish, get_token_from_daemon,
}

-- A request for this token, or a shutdown, of this version, and a kill of another process.
abbrev pub IsPermitted : ℕ → Text → Call → Type 0
IsPermitted own cache_key (sent req dial limit reply) =
    ((req.version ≡ protocol_version) × (req.command ≡ get_token) × (req.cache_key ≡ cache_key))
    ⊎ ((req.version ≡ protocol_version) × (req.command ≡ Command.shutdown))
IsPermitted own cache_key auto_started = Unit
IsPermitted own cache_key probed = Unit
IsPermitted own cache_key (killed pid) = (pid ≢ own) × (pid ≢ 0)
IsPermitted own cache_key (slept n) = Unit

module _ {W : Type 0} (os : Os W) (cache_key : Text) (req : Request) where
  abbrev AllPermitted : List Call → Type 0
  AllPermitted = All (IsPermitted os.own_pid cache_key)

  abbrev full : Request
  full = record req { version = protocol_version; command = get_token; cache_key = cache_key }

  -- A session whose log is permitted, after a step as before it.
  abbrev Keeps : (Session W → Outcome W) → Type 0
  Keeps run = (s : Session W) → AllPermitted s.calls → AllPermitted (run s).0.calls

  once_started-AllPermitted :
      (again : Session W → Outcome W) (r : Session W × Option Text)
      → Keeps again
      → AllPermitted r.0.calls
      → AllPermitted (once_started os again r).0.calls
  unfolding once_started
  once_started-AllPermitted again (s, some text) ih a = a
  once_started-AllPermitted again (s, none) ih a = ih s a

  start_or_wait-AllPermitted :
      (again : Bool → Session W → Outcome W) (started : Bool)
      → ((on : Bool) → Keeps (again on))
      → Keeps (start_or_wait os again started)
  unfolding start_or_wait call_sleep call_auto_start
  start_or_wait-AllPermitted again true ih s a =
      ih true (call_sleep os (200 * millisecond) s) (tt, a)
  start_or_wait-AllPermitted again false ih s a =
      once_started-AllPermitted (again true) (call_auto_start os s) (ih true) (tt, a)

  retry-AllPermitted :
      (again : IpcError → Bool → Session W → Outcome W) (started : Bool)
      (r : Session W × (IpcError ⊎ Response))
      → ((e : IpcError) (on : Bool) → Keeps (again e on))
      → AllPermitted r.0.calls
      → AllPermitted (retry os again started r).0.calls
  unfolding retry
  retry-AllPermitted again started (s, inr resp) ih a = a
  retry-AllPermitted again started (s, inl e) ih a =
      if_both (λ (r : Outcome W). AllPermitted r.0.calls)
        (not (is_connection_refused e) && not (is_no_such_file e)) a
        (start_or_wait-AllPermitted (again e) started (ih e) s a)

  connect-AllPermitted :
      (deadline n : ℕ) (last : IpcError) (started : Bool)
      → Keeps (connect os full deadline n last started)
  unfolding connect send_request_with_timeout send
  connect-AllPermitted deadline zero last started s a = a
  connect-AllPermitted deadline (suc n) last started s a =
      if_both (λ (r : Outcome W). AllPermitted r.0.calls) (leb deadline (os.now s.world)) a
        (retry-AllPermitted (λ e on t. connect os full deadline n e on t) started
          (send_request_with_timeout os full (deadline - os.now s.world) s)
          (λ e on. connect-AllPermitted deadline n e on) (inl (refl, refl, refl), a))

  polled-AllPermitted :
      (again : Session W → Session W × Bool) (r : Session W × Bool)
      → ((s : Session W) → AllPermitted s.calls → AllPermitted (again s).0.calls)
      → AllPermitted r.0.calls
      → AllPermitted (polled again r).0.calls
  unfolding polled
  polled-AllPermitted again (s, true) ih a = ih s a
  polled-AllPermitted again (s, false) ih a = a

  poll_gone-AllPermitted :
      (n : ℕ) (s : Session W) → AllPermitted s.calls → AllPermitted (poll_gone os n s).0.calls
  unfolding poll_gone call_probe call_sleep
  poll_gone-AllPermitted zero s a = a
  poll_gone-AllPermitted (suc n) s a =
      polled-AllPermitted (poll_gone os n) (call_probe os (call_sleep os (100 * millisecond) s))
        (poll_gone-AllPermitted n) (tt, (tt, a))

  restarted_reply-AllPermitted :
      (r : Session W × (IpcError ⊎ Response))
      → AllPermitted r.0.calls
      → AllPermitted (restarted_reply r).0.calls
  unfolding restarted_reply
  restarted_reply-AllPermitted (s, inl e) a = a
  restarted_reply-AllPermitted (s, inr resp) a = a

  ask_restarted-AllPermitted :
      (deadline : ℕ) (r : Session W × Option Text)
      → AllPermitted r.0.calls
      → AllPermitted (ask_restarted os full deadline r).0.calls
  unfolding ask_restarted send_request_with_timeout send
  ask_restarted-AllPermitted deadline (s, some text) a = a
  ask_restarted-AllPermitted deadline (s, none) a =
      if_both (λ (r : Outcome W). AllPermitted r.0.calls) (leb deadline (os.now s.world)) a
        (restarted_reply-AllPermitted
          (send_request_with_timeout os full (deadline - os.now s.world) s)
          (inl (refl, refl, refl), a))

  reconnect-AllPermitted : (deadline : ℕ) → Keeps (reconnect os full deadline)
  unfolding reconnect call_auto_start
  reconnect-AllPermitted deadline s a =
      if_both (λ (r : Outcome W). AllPermitted r.0.calls) (leb deadline (os.now s.world)) a
        (ask_restarted-AllPermitted deadline (call_auto_start os s) (tt, a))

  after_kill-AllPermitted :
      (r : Session W × Bool) → AllPermitted r.0.calls → AllPermitted (after_kill os r).calls
  unfolding after_kill call_sleep
  after_kill-AllPermitted (s, true) a = (tt, a)
  after_kill-AllPermitted (s, false) a = a

  kill_old-AllPermitted :
      (deadline old_pid : ℕ) (refusal : Option ShutdownError)
      → Keeps (kill_old os full deadline old_pid refusal)
  unfolding kill_old call_kill
  kill_old-AllPermitted deadline old_pid refusal s a =
      elim (Bool-cases (ltb 0 old_pid && not (old_pid == os.own_pid))) [
        | inl e ↦
            rw (e, kill_old)
              (reconnect-AllPermitted deadline _ (
                after_kill-AllPermitted (call_kill os old_pid s)
                  (((λ same. absurd (ground arith)), (λ same. absurd (ground arith))), a)))
        | inr e ↦
            rw (e, kill_old)
              (elim (Option-cases refusal) [
                | inr (failure, refused) ↦ rw refused a
                | inl accepted ↦ rw accepted (reconnect-AllPermitted deadline s a)
              ])
      ]

  kill_unless_gone-AllPermitted :
      (deadline old_pid : ℕ) (refusal : Option ShutdownError) (r : Session W × Bool)
      → AllPermitted r.0.calls
      → AllPermitted (kill_unless_gone os full deadline old_pid refusal r).0.calls
  unfolding kill_unless_gone
  kill_unless_gone-AllPermitted deadline old_pid refusal (s, true) a =
      reconnect-AllPermitted deadline s a
  kill_unless_gone-AllPermitted deadline old_pid refusal (s, false) a =
      kill_old-AllPermitted deadline old_pid refusal s a

  restart-AllPermitted :
      (deadline old_pid : ℕ) (r : Session W × Option ShutdownError)
      → AllPermitted r.0.calls
      → AllPermitted (restart os full deadline old_pid r).0.calls
  unfolding restart
  restart-AllPermitted deadline old_pid (s, refusal) a =
      kill_unless_gone-AllPermitted deadline old_pid refusal (poll_gone os 6 s)
        (poll_gone-AllPermitted 6 s a)

  finish-AllPermitted :
      (deadline : ℕ) (r : Outcome W)
      → AllPermitted r.0.calls
      → AllPermitted (finish os full deadline r).0.calls
  unfolding finish send_shutdown send
  finish-AllPermitted deadline (s, inl e) a = a
  finish-AllPermitted deadline (s, inr resp) a =
      if_both (λ (r : Outcome W). AllPermitted r.0.calls) (is_mismatch resp)
        (restart-AllPermitted deadline resp.pid (send_shutdown os s) (inr (refl, refl), a)) a

  -- Every request that `get-token` sends, in its first phase and after a version mismatch, is one
  -- of this protocol version, and asks for the token of its cache key or for a shutdown. It kills
  -- neither its own process nor one whose number is not known.
  pub get_token-IsPermitted :
      (s : Session W)
      → All (IsPermitted os.own_pid cache_key) s.calls
      → All (IsPermitted os.own_pid cache_key) (get_token_from_daemon os cache_key req s).0.calls
  unfolding get_token_from_daemon get_token_request
  get_token-IsPermitted s a =
      finish-AllPermitted (os.now s.world + get_token_timeout)
        (connect os full (os.now s.world + get_token_timeout) 3 IpcError.no_such_file false s)
        (connect-AllPermitted (os.now s.world + get_token_timeout) 3 IpcError.no_such_file false s
          a)
