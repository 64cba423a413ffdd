-- ===== src/Token/Accounting.antt =====
-- pkg/daemon/token_manager.go: the wait group counts what is due to run, and `Stop` is final.
use kubelogin_daemon.Prelude.{◌+◌, ◌≤◌, ◌≡◌, true, arith, sym, ◌∙◌}
use kubelogin_daemon.State.{Time}
use kubelogin_daemon.Token.{
  TokenManager, Config, slots, new_token_manager, schedule_proactive_refresh, schedule_retry,
  start_persist_watchdog, reschedule_watchdog, fire_refresh_timer, fire_persist_timer,
  callback_done, stop, store, reset_retry_count, get_token, set_refresher, Step, schedules, retries,
  starts_watchdog, reschedules, fires_refresh, fires_persist, returns, stops, stores, resets, reads,
  sets_refresher, Steps, here, next, is_unset,
}

-- The counter of the wait group is the number of timers that are due and callbacks that run; the
-- watchdog has at most one timer or callback with its deferred part to come; and a stopped manager
-- is canceled and has no timer that is due.
pub record WgInv (m : TokenManager) : Type 0 where
  pub counted : m.callback_wg ≡ slots m.refresh_timer + slots m.persist_timer + m.running
  pub one_watchdog : slots m.persist_timer + m.watching ≤ 1
  pub watching_runs : m.watching ≤ m.running
  pub not_started : is_unset m.persist_timer ≡ true → m.watching ≡ 0
  pub stopped_canceled : m.stopped ≡ m.canceled
  pub stopped_timers : m.stopped ≡ true → (slots m.refresh_timer ≡ 0) × (slots m.persist_timer ≡ 0)

pub new_token_manager-WgInv : (now : Time) (cfg : Config) → WgInv (new_token_manager now cfg)
unfolding new_token_manager
new_token_manager-WgInv now cfg = ground arith

-- Every atomic stretch of every goroutine keeps the accounts of the wait group.
pub Step-WgInv : {m m' : TokenManager} → Step m m' → WgInv m → WgInv m'
unfolding schedule_proactive_refresh schedule_retry start_persist_watchdog reschedule_watchdog
    fire_refresh_timer fire_persist_timer callback_done stop store reset_retry_count get_token
    set_refresher
Step-WgInv (schedules now entry) v = ground arith
Step-WgInv (retries now jitter entry) v = ground arith
Step-WgInv starts_watchdog v = ground arith
Step-WgInv (reschedules p) v = ground arith
Step-WgInv fires_refresh v = ground arith
Step-WgInv fires_persist v = ground arith
Step-WgInv (returns p) v = ground arith
Step-WgInv stops v = ground arith
Step-WgInv (stores entry) v = ground arith
Step-WgInv resets v = ground arith
Step-WgInv (reads now) v = ground arith
Step-WgInv (sets_refresher r) v = ground arith

pub Steps-WgInv : {m m' : TokenManager} → Steps m m' → WgInv m → WgInv m'
Steps-WgInv here v = v
Steps-WgInv (next s st) v = Step-WgInv st (Steps-WgInv s v)

-- In a stopped manager no step starts a callback.
Step-stopped :
    {m m' : TokenManager}
    → Step m m'
    → WgInv m
    → m.stopped ≡ true
    → (m'.stopped ≡ true) × (m'.running ≤ m.running)
unfolding schedule_proactive_refresh schedule_retry start_persist_watchdog reschedule_watchdog
    fire_refresh_timer fire_persist_timer callback_done stop store reset_retry_count get_token
    set_refresher
Step-stopped (schedules now entry) v s = ground arith
Step-stopped (retries now jitter entry) v s = ground arith
Step-stopped starts_watchdog v s = ground arith
Step-stopped (reschedules p) v s = ground arith
Step-stopped fires_refresh v s = ground arith
Step-stopped fires_persist v s = ground arith
Step-stopped (returns p) v s = ground arith
Step-stopped stops v s = ground arith
Step-stopped (stores entry) v s = ground arith
Step-stopped resets v s = ground arith
Step-stopped (reads now) v s = ground arith
Step-stopped (sets_refresher r) v s = ground arith

Steps-stopped :
    {m m' : TokenManager}
    → Steps m m'
    → WgInv m
    → m.stopped ≡ true
    → (m'.stopped ≡ true) × (m'.running ≤ m.running)
Steps-stopped here v s = (s, omega arith)
Steps-stopped (next t st) v s =
    let before = Steps-stopped t v s in
    let after = Step-stopped st (Steps-WgInv t v) before.0 in (after.0, omega arith)

-- Of a manager that `NewTokenManager` made, after any interleaving of the critical sections and
-- atomic operations of its callbacks, of requests and of `Stop`: the counter of the wait group is
-- the number of timers that are due and of callbacks that run, so that no `Done` makes it negative;
-- the persist watchdog has at most one chain; and once stopped, the manager is canceled and no
-- timer of it is due.
pub new-Steps-WgInv :
    (now : Time) (cfg : Config) (m : TokenManager) → Steps (new_token_manager now cfg) m → WgInv m
new-Steps-WgInv now cfg m s = Steps-WgInv s (new_token_manager-WgInv now cfg)

stop-stopped : (m : TokenManager) → (stop m).stopped ≡ true
unfolding stop
stop-stopped m = ground arith

-- After `Stop`, once `callbackWg.Wait` has seen the counter at 0, no callback runs and none ever
-- starts again, and the counter stays 0, whatever other goroutines still do with the manager. The
-- accounts were right before.
pub stop_final :
    {m waited later : TokenManager}
    → WgInv m
    → Steps (stop m) waited
    → waited.callback_wg ≡ 0
    → Steps waited later
    → (later.running ≡ 0) × (later.callback_wg ≡ 0) × (later.canceled ≡ true)
stop_final {m} {waited} {later} v s w t =
    let v₁ = Steps-WgInv s (Step-WgInv stops v) in
    let stopped₁ = (Steps-stopped s (Step-WgInv stops v) (stop-stopped m)).0 in
    let (stopped₂, fewer) = Steps-stopped t v₁ stopped₁ in
    let v₂ = Steps-WgInv t v₁ in
    let (r₁, p₁) = v₁.stopped_timers stopped₁ in
    let (r₂, p₂) = v₂.stopped_timers stopped₂ in
    let counted₁ = v₁.counted in
    let counted₂ = v₂.counted in (omega arith, omega arith, sym v₂.stopped_canceled ∙ stopped₂)
