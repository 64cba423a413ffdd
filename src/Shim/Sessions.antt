-- ===== src/Shim/Sessions.antt =====
-- What every call of the session keeps, `GetTokenFromDaemon` keeps.
use kubelogin_daemon.Prelude.{
  ℕ, zero, suc, ◌+◌, ◌-◌, ◌*◌, Bool, true, false, not, ◌&&◌, ◌==◌, Option, none, some, leb, ltb,
  ◌⊎◌, inl, inr, if_both, Option-cases,
}
use kubelogin_daemon.Text.{Text}
use kubelogin_daemon.Ipc.{Request, Response, shutdown}
use kubelogin_daemon.Shim.Requests.{
  Os, Session, IpcError, is_connection_refused, is_no_such_file, send, send_request_with_timeout,
  send_shutdown, call_auto_start, call_probe, call_kill, call_sleep, millisecond, get_token_request,
  ShutdownError, second, empty_request,
}
use kubelogin_daemon.Shim.Client.{
  Outcome, get_token_timeout, polled, once_started, start_or_wait, retry, connect, poll_gone,
  restarted_reply, ask_restarted, reconnect, after_kill, kill_old, kill_unless_gone, restart,
  is_mismatch, finish, get_token_from_daemon,
}

-- A property of the session that each call keeps.
pub record Kept {W : Type 0} (os : Os W) (I : Session W → Type 0) : Type 0 where
  pub by_send :
      (dial limit : ℕ) (req : Request) (s : Session W) → I s → I (send os dial limit req s).0
  pub by_start : (s : Session W) → I s → I (call_auto_start os s).0
  pub by_probe : (s : Session W) → I s → I (call_probe os s).0
  pub by_kill : (pid : ℕ) (s : Session W) → I s → I (call_kill os pid s).0
  pub by_sleep : (n : ℕ) (s : Session W) → I s → I (call_sleep os n s)

module _ {W : Type 0} (os : Os W) (I : Session W → Type 0) (kept : Kept os I) (req : Request) where
  abbrev AtEnd : Outcome W → Type 0
  AtEnd r = I r.0

  start_or_wait-kept :
      (again : Bool → Session W → Outcome W) (started : Bool) (s : Session W)
      → ((on : Bool) (s : Session W) → I s → I (again on s).0)
      → I s
      → I (start_or_wait os again started s).0
  unfolding start_or_wait once_started
  start_or_wait-kept again true s ih i =
      ih true (call_sleep os (200 * millisecond) s) (kept.by_sleep (200 * millisecond) s i)
  start_or_wait-kept again false s ih i = started (call_auto_start os s) (kept.by_start s i)
    where
      started : (r : Session W × Option Text) → I r.0 → I (once_started os (again true) r).0
      started (s', some text) j = j
      started (s', none) j = ih true s' j

  retry-kept :
      (again : IpcError → Bool → Session W → Outcome W) (started : Bool)
      (r : Session W × (IpcError ⊎ Response))
      → ((e : IpcError) (on : Bool) (s : Session W) → I s → I (again e on s).0)
      → I r.0
      → I (retry os again started r).0
  unfolding retry
  retry-kept again started (s, inr resp) ih i = i
  retry-kept again started (s, inl e) ih i =
      if_both AtEnd (not (is_connection_refused e) && not (is_no_such_file e)) i
        (start_or_wait-kept (again e) started s (ih e) i)

  sent_kept : (limit : ℕ) (s : Session W) → I s → I (send_request_with_timeout os req limit s).0
  unfolding send_request_with_timeout
  sent_kept limit s i = kept.by_send limit limit req s i

  connect-kept :
      (deadline n : ℕ) (last : IpcError) (started : Bool) (s : Session W)
      → I s
      → I (connect os req deadline n last started s).0
  unfolding connect
  connect-kept deadline zero last started s i = i
  connect-kept deadline (suc n) last started s i = if_both AtEnd (leb deadline (os.now s.world)) i (
      retry-kept (λ e on t. connect os req deadline n e on t) started
        (send_request_with_timeout os req (deadline - os.now s.world) s)
        (λ e on t j. connect-kept deadline n e on t j) (sent_kept (deadline - os.now s.world) s i))

  poll_gone-kept : (n : ℕ) (s : Session W) → I s → I (poll_gone os n s).0
  unfolding poll_gone polled
  poll_gone-kept zero s i = i
  poll_gone-kept (suc n) s i =
      once (poll_gone-kept n) (call_probe os (call_sleep os (100 * millisecond) s)) (
        kept.by_probe (call_sleep os (100 * millisecond) s) (kept.by_sleep (100 * millisecond) s i))
    where
      once :
          ((s : Session W) → I s → I (poll_gone os n s).0)
          → (r : Session W × Bool) → I r.0
          → I (polled (poll_gone os n) r).0
      once again (s', true) j = again s' j
      once again (s', false) j = j

  restarted_reply-kept : (r : Session W × (IpcError ⊎ Response)) → I r.0 → I (restarted_reply r).0
  unfolding restarted_reply
  restarted_reply-kept (s, inl e) i = i
  restarted_reply-kept (s, inr resp) i = i

  ask_restarted-kept :
      (deadline : ℕ) (r : Session W × Option Text) → I r.0 → I (ask_restarted os req deadline r).0
  unfolding ask_restarted
  ask_restarted-kept deadline (s, some text) i = i
  ask_restarted-kept deadline (s, none) i = if_both AtEnd (leb deadline (os.now s.world)) i (
      restarted_reply-kept (send_request_with_timeout os req (deadline - os.now s.world) s)
        (sent_kept (deadline - os.now s.world) s i))

  reconnect-kept : (deadline : ℕ) (s : Session W) → I s → I (reconnect os req deadline s).0
  unfolding reconnect
  reconnect-kept deadline s i =
      if_both AtEnd (leb deadline (os.now s.world)) i
        (ask_restarted-kept deadline (call_auto_start os s) (kept.by_start s i))

  after_kill-kept : (r : Session W × Bool) → I r.0 → I (after_kill os r)
  unfolding after_kill
  after_kill-kept (s, true) i = kept.by_sleep (200 * millisecond) s i
  after_kill-kept (s, false) i = i

  kill_old-kept :
      (deadline old_pid : ℕ) (refusal : Option ShutdownError) (s : Session W)
      → I s
      → I (kill_old os req deadline old_pid refusal s).0
  unfolding kill_old
  kill_old-kept deadline old_pid refusal s i =
      if_both AtEnd (ltb 0 old_pid && not (old_pid == os.own_pid))
        (reconnect-kept deadline (after_kill os (call_kill os old_pid s))
          (after_kill-kept (call_kill os old_pid s) (kept.by_kill old_pid s i)))
        (elim (Option-cases refusal) [
          | inr (failure, refused) ↦ rw refused i
          | inl accepted ↦ rw accepted (reconnect-kept deadline s i)
        ])

  kill_unless_gone-kept :
      (deadline old_pid : ℕ) (refusal : Option ShutdownError) (r : Session W × Bool)
      → I r.0
      → I (kill_unless_gone os req deadline old_pid refusal r).0
  unfolding kill_unless_gone
  kill_unless_gone-kept deadline old_pid refusal (s, true) i = reconnect-kept deadline s i
  kill_unless_gone-kept deadline old_pid refusal (s, false) i =
      kill_old-kept deadline old_pid refusal s i

  restart-kept :
      (deadline old_pid : ℕ) (r : Session W × Option ShutdownError)
      → I r.0
      → I (restart os req deadline old_pid r).0
  unfolding restart
  restart-kept deadline old_pid (s, refusal) i =
      kill_unless_gone-kept deadline old_pid refusal (poll_gone os 6 s) (poll_gone-kept 6 s i)

  shutdown_kept : (s : Session W) → I s → I (send_shutdown os s).0
  unfolding send_shutdown
  shutdown_kept s i = kept.by_send (2 * second) (5 * second) (empty_request shutdown) s i

  finish-kept : (deadline : ℕ) (r : Outcome W) → I r.0 → I (finish os req deadline r).0
  unfolding finish
  finish-kept deadline (s, inl e) i = i
  finish-kept deadline (s, inr resp) i =
      if_both AtEnd (is_mismatch resp)
        (restart-kept deadline resp.pid (send_shutdown os s) (shutdown_kept s i)) i

-- A property that every call keeps holds at the end of `get-token` where it holds at its start.
pub get_token-kept :
    {W : Type 0} (os : Os W) (I : Session W → Type 0) (kept : Kept os I) (cache_key : Text)
    (req : Request) (s : Session W)
    → I s
    → I (get_token_from_daemon os cache_key req s).0
unfolding get_token_from_daemon
get_token-kept os I kept cache_key req s i =
    let full = get_token_request cache_key req in
    let deadline = os.now s.world + get_token_timeout in
    finish-kept os I kept full deadline (connect os full deadline 3 IpcError.no_such_file false s)
      (connect-kept os I kept full deadline 3 IpcError.no_such_file false s i)
