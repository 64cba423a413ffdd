-- ===== src/Token.antt =====
-- pkg/daemon/token_manager.go: the token of one cache key, its refresh and its timers.
-- `current`, `refresher`, `last_access` and what `timerMu` guards are the fields of one record, and
-- each function is one stretch of code that no other goroutine cuts into: an atomic operation or a
-- critical section of `timerMu`. A timer callback is a sequence of them, so that `Step` has every
-- interleaving of callbacks, requests and `Stop`. The refresh itself is an argument, the result of
-- `Refresher.Refresh`; `singleflight`, which lets concurrent callers share one such run, belongs to
-- a library and is left out.
pub mod Accounting
pub mod Backoff
pub mod Refreshing
mod Examples
use kubelogin_daemon.Prelude.{
  ℕ, zero, suc, ◌+◌, ◌-◌, ◌*◌, ◌/◌, ◌^◌, ◌≡◌, ◌<◌, Bool, true, false, not, ◌&&◌, ◌||◌, Option, none,
  some, List, [], ◌++◌, ltb, leb, ◌==◌, if◌then◌else◌,
}
use kubelogin_daemon.Text.{Text, codes, is_empty, contains}
use kubelogin_daemon.State.{Time}
use kubelogin_daemon.Refresher.{OidcRefresher, TokenSet, Result, ok, err}

pub record TokenEntry : Type 0 where
  pub id_token : Text
  pub refresh_token : Text
  pub expiry : Time
  pub obtained_at : Time

-- What `time.AfterFunc` was called with last: `armed d` waits for `d`; a timer that was stopped or
-- has fired is `spent`.
pub data Timer : Type 0 where
  unset : Timer
  armed : Time → Timer
  spent : Timer

-- `refresh_margin` is in percent of the lifetime. `callback_wg` is the counter of the wait group,
-- `running` the number of callbacks that have fired and not yet returned, and `watching` that of the
-- watchdog's callbacks among them that have not yet come to their deferred part.
pub record TokenManager : Type 0 where
  pub current : Option TokenEntry
  pub refresher : OidcRefresher
  pub cache_key : Text
  pub last_access : ℕ
  pub refresh_margin : ℕ
  pub min_refresh_interval : Time
  pub persist_interval : Time
  pub refresh_timer : Timer
  pub persist_timer : Timer
  pub retry_count : ℕ
  pub stopped : Bool
  pub canceled : Bool
  pub callback_wg : ℕ
  pub running : ℕ
  pub watching : ℕ

abbrev pub second : Time
second = 1_000_000_000

-- `TokenManagerConfig`.
pub record Config : Type 0 where
  pub refresher : OidcRefresher
  pub cache_key : Text
  pub refresh_margin : ℕ
  pub min_refresh_interval : Time
  pub persist_interval : Time

-- `time.Time.Unix`, up to the choice of the zero.
abbrev pub unix_seconds : Time → ℕ
unix_seconds now = now / second

-- `NewTokenManager`.
unfoldable pub new_token_manager : Time → Config → TokenManager
new_token_manager now cfg = record {
  current = none;
  refresher = cfg.refresher;
  cache_key = cfg.cache_key;
  last_access = unix_seconds now;
  refresh_margin =
      if cfg.refresh_margin == 0 || leb 100 cfg.refresh_margin then 80 else cfg.refresh_margin;
  min_refresh_interval =
      if cfg.min_refresh_interval == 0 then 10 * second else cfg.min_refresh_interval;
  persist_interval = if cfg.persist_interval == 0 then 300 * second else cfg.persist_interval;
  refresh_timer = unset;
  persist_timer = unset;
  retry_count = 0;
  stopped = false;
  canceled = false;
  callback_wg = 0;
  running = 0;
  watching = 0;
}

abbrev is_armed : Timer → Bool
is_armed (armed d) = true
is_armed _ = false

-- What `Stop` leaves of a timer, and how many slots of the wait group it frees.
abbrev stopped_timer : Timer → Timer
stopped_timer unset = unset
stopped_timer (armed d) = spent
stopped_timer spent = spent

abbrev pub slots : Timer → ℕ
slots (armed d) = 1
slots _ = 0

-- The counter after `if timer.Stop() { callbackWg.Done() }`.
abbrev released : Timer → ℕ → ℕ
released t n = n - slots t

abbrev pub refresh_delay : TokenManager → Time → Time
refresh_delay m lifetime =
    let delay = lifetime * m.refresh_margin / 100 in
    if ltb delay m.min_refresh_interval then m.min_refresh_interval else delay

-- `scheduleProactiveRefresh`.
unfoldable pub schedule_proactive_refresh : Time → TokenEntry → TokenManager → TokenManager
schedule_proactive_refresh now entry m =
    let wg = released m.refresh_timer m.callback_wg in
    if m.stopped
    then m
    else if leb entry.expiry now
    then record m { refresh_timer = stopped_timer m.refresh_timer; callback_wg = wg }
    else record m {
      refresh_timer = armed (refresh_delay m (entry.expiry - now));
      callback_wg = wg + 1;
    }

-- The shift is capped at 5, and the delay at 30 seconds.
abbrev pub backoff : ℕ → Time
backoff retry_count =
    let shift = if ltb 5 (retry_count - 1) then 5 else retry_count - 1 in
    let delay = second * 2 ^ shift in if ltb (30 * second) delay then 30 * second else delay

-- The delay with a jitter, which `rand.Int63n(delay / 2)` draws, and not beyond the expiry.
unfoldable pub retry_delay : ℕ → ℕ → Time → Time
retry_delay retry_count jitter remaining =
    let delay = backoff retry_count / 2 + backoff retry_count / 4 + jitter in
    if ltb remaining delay then remaining else delay

-- `scheduleRetry`.
unfoldable pub schedule_retry : Time → ℕ → TokenEntry → TokenManager → TokenManager
unfolding retry_delay
schedule_retry now jitter entry m =
    let wg = released m.refresh_timer m.callback_wg in
    let count = m.retry_count + 1 in
    if m.stopped
    then m
    else if leb entry.expiry now
    then record m {
      refresh_timer = stopped_timer m.refresh_timer;
      callback_wg = wg;
      retry_count = count;
    }
    else record m {
      refresh_timer = armed (retry_delay count jitter (entry.expiry - now));
      callback_wg = wg + 1;
      retry_count = count;
    }

abbrev is_unset : Timer → Bool
is_unset unset = true
is_unset _ = false

-- `startPersistWatchdog`.
unfoldable pub start_persist_watchdog : TokenManager → TokenManager
start_persist_watchdog m =
    if m.stopped || not (is_unset m.persist_timer)
    then m
    else record m { persist_timer = armed m.persist_interval; callback_wg = m.callback_wg + 1 }

-- The deferred part of `persistWatchdogCallback`.
unfoldable pub reschedule_watchdog : TokenManager → TokenManager
reschedule_watchdog m =
    let m' = record m { watching = m.watching - 1 } in
    if m.stopped || m.canceled
    then m'
    else record m' { persist_timer = armed m.persist_interval; callback_wg = m.callback_wg + 1 }

-- A timer fires: its callback runs.
abbrev fired_refresh : Timer → TokenManager → TokenManager
fired_refresh (armed d) m = record m { refresh_timer = spent; running = m.running + 1 }
fired_refresh _ m = m

abbrev fired_persist : Timer → TokenManager → TokenManager
fired_persist (armed d) m = record m {
  persist_timer = spent;
  running = m.running + 1;
  watching = m.watching + 1;
}
fired_persist _ m = m

unfoldable pub fire_refresh_timer : TokenManager → TokenManager
fire_refresh_timer m = fired_refresh m.refresh_timer m

unfoldable pub fire_persist_timer : TokenManager → TokenManager
fire_persist_timer m = fired_persist m.persist_timer m

-- `callbackWg.Done()` at the end of a callback.
unfoldable pub callback_done : TokenManager → TokenManager
callback_done m = record m { callback_wg = m.callback_wg - 1; running = m.running - 1 }

-- The critical section of `Stop`; `callbackWg.Wait()` then waits for `callback_wg` to be 0.
unfoldable pub stop : TokenManager → TokenManager
stop m = if m.stopped then m else record m {
  stopped = true;
  canceled = true;
  refresh_timer = stopped_timer m.refresh_timer;
  persist_timer = stopped_timer m.persist_timer;
  callback_wg = released m.persist_timer (released m.refresh_timer m.callback_wg);
}

unfoldable pub store : TokenEntry → TokenManager → TokenManager
store entry m = record m { current = some entry }

unfoldable pub reset_retry_count : TokenManager → TokenManager
reset_retry_count m = record m { retry_count = 0 }

-- `SetInitialToken`.
unfoldable pub set_initial_token : Time → Text → Text → Time → TokenManager → TokenManager
unfolding store schedule_proactive_refresh start_persist_watchdog
set_initial_token now id_token refresh_token expiry m =
    let entry : TokenEntry = record {
      id_token = id_token;
      refresh_token = refresh_token;
      expiry = expiry;
      obtained_at = now;
    } in
    start_persist_watchdog (schedule_proactive_refresh now entry (store entry m))

-- `GetToken`: the token and its expiry, and the time of the access.
unfoldable pub get_token : Time → TokenManager → TokenManager × Option (Text × Time)
get_token now m = elim m.current [
  | none ↦ (m, none)
  | some entry ↦ (record m { last_access = unix_seconds now }, some (entry.id_token, entry.expiry))
]

-- `SetRefresher`.
unfoldable pub set_refresher : OidcRefresher → TokenManager → TokenManager
set_refresher r m = record m { refresher = r }

-- `CurrentRefreshToken`.
abbrev pub current_refresh_token : TokenManager → Text
current_refresh_token m = elim m.current [ none ↦ [] | some entry ↦ entry.refresh_token ]

-- `IsExpired`.
unfoldable pub is_expired : Time → TokenManager → Bool
is_expired now m = elim m.current [ none ↦ true | some entry ↦ ltb entry.expiry now ]

-- An error with its text; `is_permanent` is `IsPermanentRefreshError`.
pub record RefreshError : Type 0 where
  pub text : Text
  pub is_permanent : Bool

pub data Refreshed : Type 0 where
  refreshed : TokenEntry → Refreshed
  not_refreshed : RefreshError → Refreshed

abbrev pub is_revoked : Text → Bool
is_revoked e = contains e (codes "invalid_grant") || contains e (codes "token has been revoked")

-- How `Refresh` reports an error of the refresher.
unfoldable pub refresh_error : Text → RefreshError
refresh_error e =
    if is_revoked e
    then record { text = codes "refresh token revoked: " ++ e; is_permanent = true }
    else record { text = codes "refresh failed: " ++ e; is_permanent = false }

abbrev entry_of : Time → TokenSet → TokenEntry
entry_of now s = record {
  id_token = s.id_token;
  refresh_token = s.refresh_token;
  expiry = s.expiry;
  obtained_at = now;
}

-- The closure of `Refresh` up to its result: what the refresher is asked, and what it makes of the
-- answer, which comes at time `now`.
unfoldable pub refresh_result :
    (OidcRefresher → Text → Result TokenSet) → Time → TokenManager → Refreshed
unfolding refresh_error
refresh_result exchange now m = elim m.current [
  | none ↦ not_refreshed (record { text = codes "no token to refresh"; is_permanent = false })
  | some entry ↦
      if is_empty entry.refresh_token
      then not_refreshed (record {
        text = codes "refresh token is empty, re-authentication required";
        is_permanent = true;
      })
      else elim (exchange m.refresher entry.refresh_token) [
        | ok s ↦ refreshed (entry_of now s)
        | err e ↦ not_refreshed (refresh_error e)
      ]
]

-- What `Refresh` does to the manager with the result; `PersistToken` is called in between, with the
-- new tokens (see `Server`).
unfoldable pub apply_refresh : Time → Refreshed → TokenManager → TokenManager
unfolding store reset_retry_count schedule_proactive_refresh
apply_refresh now (not_refreshed e) m = m
apply_refresh now (refreshed entry) m =
    schedule_proactive_refresh now entry (reset_retry_count (store entry m))

-- The body of the callback of `scheduleProactiveRefresh`, without `callbackWg.Done()`; a retry is
-- for the entry that the timer was set for. In the callback of `scheduleRetry` it is for the
-- current one.
retry_after : Time → ℕ → Option TokenEntry → Refreshed → TokenManager → TokenManager
retry_after now jitter entry (refreshed _) m = m
retry_after now jitter entry (not_refreshed e) m = elim entry [
  | none ↦ m
  | some t ↦ if e.is_permanent then m else schedule_retry now jitter t m
]

unfoldable pub proactive_callback :
    (OidcRefresher → Text → Result TokenSet) → Time → ℕ → TokenEntry → TokenManager → TokenManager
unfolding refresh_result apply_refresh retry_after schedule_retry
proactive_callback exchange now jitter entry m =
    let r = refresh_result exchange now m in
    if m.canceled then m else retry_after now jitter (some entry) r (apply_refresh now r m)

unfoldable pub retry_callback :
    (OidcRefresher → Text → Result TokenSet) → Time → ℕ → TokenManager → TokenManager
unfolding refresh_result apply_refresh retry_after schedule_retry
retry_callback exchange now jitter m =
    let r = refresh_result exchange now m in
    let m' = apply_refresh now r m in
    if m.canceled then m else retry_after now jitter m'.current r m'

-- The tokens that `persistWatchdogCallback` writes, if any.
unfoldable pub watchdog_writes : TokenManager → Option (Text × Text)
watchdog_writes m = elim m.current [
  | none ↦ none
  | some entry ↦
      if m.canceled || is_empty entry.id_token && is_empty entry.refresh_token
      then none
      else some (entry.id_token, entry.refresh_token)
]

-- One atomic stretch of any goroutine that uses the manager. The deferred part of the watchdog is
-- run by a callback of it, and a callback returns when it has nothing left to do.
pub data Step (m : TokenManager) : TokenManager → Type 0 where
  schedules : (now : Time) (entry : TokenEntry) → Step m (schedule_proactive_refresh now entry m)
  retries :
      (now : Time) (jitter : ℕ) (entry : TokenEntry) → Step m (schedule_retry now jitter entry m)
  starts_watchdog : Step m (start_persist_watchdog m)
  reschedules : 0 < m.watching → Step m (reschedule_watchdog m)
  fires_refresh : Step m (fire_refresh_timer m)
  fires_persist : Step m (fire_persist_timer m)
  returns : m.watching < m.running → Step m (callback_done m)
  stops : Step m (stop m)
  stores : (entry : TokenEntry) → Step m (store entry m)
  resets : Step m (reset_retry_count m)
  reads : (now : Time) → Step m (get_token now m).0
  sets_refresher : (r : OidcRefresher) → Step m (set_refresher r m)

pub data Steps (m : TokenManager) : TokenManager → Type 0 where
  here : Steps m m
  next : {a b : TokenManager} → Steps m a → Step a b → Steps m b
