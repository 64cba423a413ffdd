-- ===== src/Shim/Calls.antt =====
-- `GetTokenFromDaemon` comes to an end: bounds on its requests, starts, kills and waits.
use mathlib.Core.Path.{subst}
use kubelogin_daemon.Prelude.{
  sym, ℕ, zero, suc, ◌+◌, ◌-◌, ◌*◌, ◌≤◌, ◌≡◌, refl, Bool, true, false, not, ◌&&◌, ◌==◌, Option,
  none, some, List, [], ◌∷◌, leb, ltb, ◌⊎◌, inl, inr, arith, if_both, Option-cases,
}
use kubelogin_daemon.Text.{Text}
use kubelogin_daemon.Ipc.{Request, Response}
use kubelogin_daemon.Shim.Requests.{
  Os, Session, Call, sent, auto_started, probed, killed, slept, IpcError, is_connection_refused,
  is_no_such_file, send, send_request_with_timeout, send_shutdown, call_auto_start, call_probe,
  call_kill, call_sleep, millisecond, get_token_request, ShutdownError,
}
use kubelogin_daemon.Shim.Client.{
  Outcome, get_token_timeout, polled, once_started, start_or_wait, retry, connect, poll_gone,
  restarted_reply, ask_restarted, reconnect, after_kill, kill_old, kill_unless_gone, restart,
  is_mismatch, finish, get_token_from_daemon,
}

-- The requests, the starts of a daemon, the kills, and the time that was slept.
abbrev pub sends : List Call → ℕ
sends [] = 0
sends (sent req dial limit reply ∷ calls) = suc (sends calls)
sends (auto_started ∷ calls) = sends calls
sends (probed ∷ calls) = sends calls
sends (killed pid ∷ calls) = sends calls
sends (slept n ∷ calls) = sends calls

abbrev pub starts : List Call → ℕ
starts [] = 0
starts (sent req dial limit reply ∷ calls) = starts calls
starts (auto_started ∷ calls) = suc (starts calls)
starts (probed ∷ calls) = starts calls
starts (killed pid ∷ calls) = starts calls
starts (slept n ∷ calls) = starts calls

abbrev pub kills : List Call → ℕ
kills [] = 0
kills (sent req dial limit reply ∷ calls) = kills calls
kills (auto_started ∷ calls) = kills calls
kills (probed ∷ calls) = kills calls
kills (killed pid ∷ calls) = suc (kills calls)
kills (slept n ∷ calls) = kills calls

abbrev pub waits : List Call → ℕ
waits [] = 0
waits (sent req dial limit reply ∷ calls) = waits calls
waits (auto_started ∷ calls) = waits calls
waits (probed ∷ calls) = waits calls
waits (killed pid ∷ calls) = waits calls
waits (slept n ∷ calls) = n + waits calls

-- What the later of two logs has more than the earlier one, at most.
abbrev pub Spent : ℕ → ℕ → ℕ → ℕ → List Call → List Call → Type 0
Spent a b c d before after =
    (sends after ≤ a + sends before)
    × (starts after ≤ b + starts before)
    × (kills after ≤ c + kills before)
    × (waits after ≤ d + waits before)

-- The starts that the first phase has left.
abbrev starts_left : Bool → ℕ
starts_left true = 0
starts_left false = 1

abbrev pause : ℕ
pause = 200 * millisecond

module _ {W : Type 0} (os : Os W) where
  once_started-Spent :
      (n : ℕ) (before : List Call) (again : Session W → Outcome W)
      (ih : (s : Session W) → Spent n 0 0 (n * pause) s.calls (again s).0.calls)
      (r : Session W × Option Text)
      → Spent 1 1 0 0 before r.0.calls
      → Spent (suc n) 1 0 (suc n * pause) before (once_started os again r).0.calls
  unfolding once_started
  once_started-Spent n before again ih (s, some text) (a, b, c, d) =
      (omega arith, omega arith, omega arith, omega arith)
  once_started-Spent n before again ih (s, none) (a, b, c, d) =
      let (a2, b2, c2, d2) = ih s in (omega arith, omega arith, omega arith, omega arith)

  start_or_wait-Spent :
      (n : ℕ) (before : List Call) (again : Bool → Session W → Outcome W)
      (ih : (on : Bool) (s : Session W)
        → Spent n (starts_left on) 0 (n * pause) s.calls (again on s).0.calls)
      (started : Bool) (s : Session W)
      → Spent 1 0 0 0 before s.calls
      → Spent
          (suc n)
          (starts_left started)
          0
          (suc n * pause)
          before
          (start_or_wait os again started s).0.calls
  unfolding start_or_wait call_sleep call_auto_start
  start_or_wait-Spent n before again ih true s (a, b, c, d) =
      let (a2, b2, c2, d2) = ih true (call_sleep os pause s) in
      (omega arith, omega arith, omega arith, omega arith)
  start_or_wait-Spent n before again ih false s (a, b, c, d) =
      once_started-Spent n before (again true) (ih true) (call_auto_start os s)
        (omega arith, omega arith, omega arith, omega arith)

  retry-Spent :
      (n : ℕ) (before : List Call) (again : IpcError → Bool → Session W → Outcome W)
      (ih : (e : IpcError) (on : Bool) (s : Session W)
        → Spent n (starts_left on) 0 (n * pause) s.calls (again e on s).0.calls)
      (started : Bool) (r : Session W × (IpcError ⊎ Response))
      → Spent 1 0 0 0 before r.0.calls
      → Spent
          (suc n)
          (starts_left started)
          0
          (suc n * pause)
          before
          (retry os again started r).0.calls
  unfolding retry
  retry-Spent n before again ih started (s, inr resp) (a, b, c, d) =
      (omega arith, omega arith, omega arith, omega arith)
  retry-Spent n before again ih started (s, inl e) (a, b, c, d) =
      if_both
        (λ (r : Outcome W). Spent (suc n) (starts_left started) 0 (suc n * pause) before r.0.calls)
        (not (is_connection_refused e) && not (is_no_such_file e))
        (omega arith, omega arith, omega arith, omega arith)
        (start_or_wait-Spent n before (again e) (ih e) started s (a, b, c, d))

  connect-Spent :
      (req : Request) (deadline n : ℕ) (last : IpcError) (started : Bool) (s : Session W)
      → Spent n
          (starts_left started)
          0
          (n * pause)
          s.calls
          (connect os req deadline n last started s).0.calls
  unfolding connect send_request_with_timeout send
  connect-Spent req deadline zero last started s =
      (omega arith, omega arith, omega arith, omega arith)
  connect-Spent req deadline (suc n) last started s =
      if_both
        (λ (r : Outcome W). Spent (suc n) (starts_left started) 0 (suc n * pause) s.calls r.0.calls)
        (leb deadline (os.now s.world)) (omega arith, omega arith, omega arith, omega arith)
        (retry-Spent n s.calls (λ e on t. connect os req deadline n e on t)
          (λ e on t. connect-Spent req deadline n e on t) started
          (send_request_with_timeout os req (deadline - os.now s.world) s)
          (omega arith, omega arith, omega arith, omega arith))

  polled-Spent :
      (n : ℕ) (before : List Call) (again : Session W → Session W × Bool)
      (ih : (s : Session W) → Spent 0 0 0 (n * (100 * millisecond)) s.calls (again s).0.calls)
      (r : Session W × Bool)
      → Spent 0 0 0 (100 * millisecond) before r.0.calls
      → Spent 0 0 0 (suc n * (100 * millisecond)) before (polled again r).0.calls
  unfolding polled
  polled-Spent n before again ih (s, false) (a, b, c, d) =
      (omega arith, omega arith, omega arith, omega arith)
  polled-Spent n before again ih (s, true) (a, b, c, d) =
      let (a2, b2, c2, d2) = ih s in (omega arith, omega arith, omega arith, omega arith)

  poll_gone-Spent :
      (n : ℕ) (s : Session W)
      → Spent 0 0 0 (n * (100 * millisecond)) s.calls (poll_gone os n s).0.calls
  unfolding poll_gone call_probe call_sleep
  poll_gone-Spent zero s = (omega arith, omega arith, omega arith, omega arith)
  poll_gone-Spent (suc n) s =
      polled-Spent n s.calls (poll_gone os n) (poll_gone-Spent n)
        (call_probe os (call_sleep os (100 * millisecond) s))
        (omega arith, omega arith, omega arith, omega arith)

  restarted_reply-calls :
      (r : Session W × (IpcError ⊎ Response)) → (restarted_reply r).0.calls ≡ r.0.calls
  unfolding restarted_reply
  restarted_reply-calls (s, inl e) = refl
  restarted_reply-calls (s, inr resp) = refl

  ask_restarted-Spent :
      (req : Request) (deadline : ℕ) (before : List Call) (r : Session W × Option Text)
      → Spent 0 1 0 0 before r.0.calls
      → Spent 1 1 0 0 before (ask_restarted os req deadline r).0.calls
  unfolding ask_restarted send_request_with_timeout send
  ask_restarted-Spent req deadline before (s, some text) (a, b, c, d) =
      (omega arith, omega arith, omega arith, omega arith)
  ask_restarted-Spent req deadline before (s, none) (a, b, c, d) =
      if_both (λ (r : Outcome W). Spent 1 1 0 0 before r.0.calls) (leb deadline (os.now s.world))
        (omega arith, omega arith, omega arith, omega arith)
        (subst (Spent 1 1 0 0 before)
          (sym (
            restarted_reply-calls (send_request_with_timeout os req (deadline - os.now s.world) s)))
          (omega arith, omega arith, omega arith, omega arith))

  reconnect-Spent :
      (req : Request) (deadline : ℕ) (s : Session W)
      → Spent 1 1 0 0 s.calls (reconnect os req deadline s).0.calls
  unfolding reconnect call_auto_start
  reconnect-Spent req deadline s =
      if_both (λ (r : Outcome W). Spent 1 1 0 0 s.calls r.0.calls) (leb deadline (os.now s.world))
        (omega arith, omega arith, omega arith, omega arith)
        (ask_restarted-Spent req deadline s.calls (call_auto_start os s)
          (omega arith, omega arith, omega arith, omega arith))

  after_kill-Spent :
      (before : List Call) (r : Session W × Bool)
      → Spent 0 0 1 0 before r.0.calls
      → Spent 0 0 1 pause before (after_kill os r).calls
  unfolding after_kill call_sleep
  after_kill-Spent before (s, true) (a, b, c, d) =
      (omega arith, omega arith, omega arith, omega arith)
  after_kill-Spent before (s, false) (a, b, c, d) =
      (omega arith, omega arith, omega arith, omega arith)

  kill_old-Spent :
      (req : Request) (deadline old_pid : ℕ) (refusal : Option ShutdownError) (s : Session W)
      → Spent 1 1 1 pause s.calls (kill_old os req deadline old_pid refusal s).0.calls
  unfolding kill_old call_kill
  kill_old-Spent req deadline old_pid refusal s =
      if_both (λ (r : Outcome W). Spent 1 1 1 pause s.calls r.0.calls)
        (ltb 0 old_pid && not (old_pid == os.own_pid))
        (let (a, b, c, d) =
            after_kill-Spent s.calls (call_kill os old_pid s)
              (omega arith, omega arith, omega arith, omega arith) in
          let (a2, b2, c2, d2) =
            reconnect-Spent req deadline (after_kill os (call_kill os old_pid s)) in
          (omega arith, omega arith, omega arith, omega arith))
        (elim (Option-cases refusal) [
          | inr (e, refused) ↦ rw refused (omega arith, omega arith, omega arith, omega arith)
          | inl accepted ↦ rw accepted (
              let (a, b, c, d) = reconnect-Spent req deadline s in
              (omega arith, omega arith, omega arith, omega arith))
        ])

  kill_unless_gone-Spent :
      (req : Request) (deadline old_pid : ℕ) (refusal : Option ShutdownError) (r : Session W × Bool)
      → Spent 1 1 1 pause r.0.calls (kill_unless_gone os req deadline old_pid refusal r).0.calls
  unfolding kill_unless_gone
  kill_unless_gone-Spent req deadline old_pid refusal (s, true) =
      let (a, b, c, d) = reconnect-Spent req deadline s in
      (omega arith, omega arith, omega arith, omega arith)
  kill_unless_gone-Spent req deadline old_pid refusal (s, false) =
      kill_old-Spent req deadline old_pid refusal s

  restart-Spent :
      (req : Request) (deadline old_pid : ℕ) (r : Session W × Option ShutdownError)
      → Spent 1 1 1 (800 * millisecond) r.0.calls (restart os req deadline old_pid r).0.calls
  unfolding restart
  restart-Spent req deadline old_pid (s, refusal) =
      let (a, b, c, d) = poll_gone-Spent 6 s in
      let (a2, b2, c2, d2) =
        kill_unless_gone-Spent req deadline old_pid refusal (poll_gone os 6 s) in
      (omega arith, omega arith, omega arith, omega arith)

  finish-Spent :
      (req : Request) (deadline : ℕ) (r : Outcome W)
      → Spent 2 1 1 (800 * millisecond) r.0.calls (finish os req deadline r).0.calls
  unfolding finish send_shutdown send
  finish-Spent req deadline (s, inl e) = (omega arith, omega arith, omega arith, omega arith)
  finish-Spent req deadline (s, inr resp) =
      if_both (λ (r : Outcome W). Spent 2 1 1 (800 * millisecond) s.calls r.0.calls)
        (is_mismatch resp)
        (let (a, b, c, d) = restart-Spent req deadline resp.pid (send_shutdown os s) in
          (omega arith, omega arith, omega arith, omega arith))
        (omega arith, omega arith, omega arith, omega arith)

  -- The log of `get-token` has at most five more requests to a daemon, two starts of one and one
  -- kill, and its own waits, those of the starts left out, add up to 1.4 seconds at most.
  pub get_token-Spent :
      (cache_key : Text) (req : Request) (s : Session W)
      → Spent 5 2 1 (1400 * millisecond) s.calls (get_token_from_daemon os cache_key req s).0.calls
  unfolding get_token_from_daemon
  get_token-Spent cache_key req s =
      let connected : Outcome W =
        connect os (get_token_request cache_key req) (os.now s.world + get_token_timeout) 3
          IpcError.no_such_file false s in
      let (a, b, c, d) =
        connect-Spent (get_token_request cache_key req) (os.now s.world + get_token_timeout) 3
          IpcError.no_such_file false s in
      let (a2, b2, c2, d2) =
        finish-Spent (get_token_request cache_key req) (os.now s.world + get_token_timeout)
          connected in
      (omega arith, omega arith, omega arith, omega arith)
