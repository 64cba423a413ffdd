-- ===== src/State.antt =====
-- The authentication state of each cache key: pkg/daemon/state.go.
-- A time is a number of nanoseconds, 0 the zero `time.Time`. A method takes the reading of the
-- clock that it makes, and returns the new map with its result. Each method holds the lock `mu`
-- throughout, except `get_state`, whose two critical sections are two functions here.
pub mod Entries
pub mod Logins
pub mod Eviction
mod Examples
use kubelogin_daemon.Prelude.{
  ℕ, ◌-◌, Bool, true, false, not, ◌≡◌, ◌&&◌, Option, none, some, List, [], ◌∷◌, ltb, leb, ◌==◌,
  length, if◌then◌else◌,
}
use kubelogin_daemon.Text.{Text}
use kubelogin_daemon.Assoc.{Assoc, lookup, insert, delete, delete_where}

abbrev pub Time : Type 0
Time = ℕ

-- `unset` is Go's empty string, the value of a fresh `stateEntry`.
pub data AuthState : Type 0 where
  unset valid refreshing needs_login login_in_progress : AuthState

pub AuthState-discrete : Discrete AuthState
AuthState-discrete = hlevel

abbrev pub is_unset : AuthState → Bool
is_unset unset = true
is_unset _ = false

abbrev pub is_login : AuthState → Bool
is_login login_in_progress = true
is_login _ = false

abbrev pub is_needs_login : AuthState → Bool
is_needs_login needs_login = true
is_needs_login _ = false

abbrev pub is_active : AuthState → Bool
is_active valid = true
is_active refreshing = true
is_active _ = false

-- Five minutes.
abbrev pub login_in_progress_ttl : Time
login_in_progress_ttl = 300_000_000_000

abbrev pub max_state_entries : ℕ
max_state_entries = 1024

pub record StateEntry : Type 0 where
  pub state : AuthState
  pub login_started : Time

abbrev pub StateManager : Type 0
StateManager = Assoc StateEntry

pub new_state_manager : StateManager
new_state_manager = []

abbrev pub needs_login_entry : StateEntry
needs_login_entry = record { state = needs_login; login_started = 0 }

-- `state == LOGIN_IN_PROGRESS && !loginStarted.IsZero() && time.Since(loginStarted) > TTL`.
unfoldable pub has_expired : Time → StateEntry → Bool
has_expired now e =
    is_login e.state
    && (not (e.login_started == 0) && ltb login_in_progress_ttl (now - e.login_started))

-- The entry once the TTL has been applied.
unfoldable pub expire : Time → StateEntry → StateEntry
unfolding has_expired
expire now e = if has_expired now e then needs_login_entry else e

-- The second critical section of `GetState`: the entry is read again under the write lock. Where
-- it is gone, what was read before is returned.
unfoldable pub reread : Time → Text → StateEntry → StateManager → StateManager × StateEntry
unfolding expire
reread now key seen sm = elim (lookup key sm) [
  | none ↦ (sm, seen)
  | some e ↦ (if has_expired now e then insert key needs_login_entry sm else sm, expire now e)
]

-- `GetState`, with the clock of each critical section.
unfoldable pub get_state : Time → Time → Text → StateManager → StateManager × (AuthState × Time)
unfolding reread
get_state now later key sm = elim (lookup key sm) [
  | none ↦ (sm, (needs_login, 0))
  | some e ↦
      if has_expired now e
      then (let (sm', e') = reread later key e sm in (sm', (e'.state, e'.login_started)))
      else (sm, (e.state, e.login_started))
]

abbrev entry_of : Time → AuthState → StateEntry
entry_of now state = record { state = state; login_started = if is_login state then now else 0 }

-- `SetState`.
unfoldable pub set_state : Time → Text → AuthState → StateManager → StateManager
set_state now key state sm = insert key (entry_of now state) sm

-- The entry that a method works on: a fresh one if the key has none.
abbrev pub entry_or_new : Option StateEntry → StateEntry
entry_or_new none = record { state = unset; login_started = 0 }
entry_or_new (some e) = e

start_login : Time → Text → StateEntry → StateManager → StateManager × (Bool × Time)
start_login now key e sm =
    if is_login e.state
    then (insert key e sm, (false, e.login_started))
    else (insert key (record { state = login_in_progress; login_started = now }) sm, (true, now))

-- `BeginLogin`.
unfoldable pub begin_login : Time → Text → StateManager → StateManager × (Bool × Time)
unfolding start_login expire
begin_login now key sm = start_login now key (expire now (entry_or_new (lookup key sm))) sm

-- `CancelLogin`.
unfoldable pub cancel_login : Text → StateManager → StateManager
cancel_login key sm = elim (lookup key sm) [
  | none ↦ sm
  | some e ↦ if is_login e.state then insert key needs_login_entry sm else sm
]

-- `DeleteEntry`.
unfoldable pub delete_entry : Text → StateManager → StateManager
delete_entry key sm = delete key sm

-- `CompleteLogin`.
unfoldable pub complete_login : Text → StateManager → StateManager
complete_login key sm = insert key (record { state = valid; login_started = 0 }) sm

-- The third pass of `EvictStale`: `n` is the number of entries that are left.
unfoldable pub evict_active : ℕ → StateManager → StateManager
evict_active n [] = []
evict_active n ((k, e) ∷ sm) =
    let dropped = evict_active (n - 1) sm in
    let kept = evict_active n sm in
    if is_active e.state
    then (if leb (n - 1) max_state_entries then sm else dropped)
    else (k, e) ∷ kept

-- `EvictStale`.
unfoldable pub evict_stale : Time → StateManager → StateManager
unfolding evict_active has_expired
evict_stale now sm =
    let idle_gone = delete_where (λ e. is_needs_login e.state) sm in
    let expired_gone = delete_where (has_expired now) idle_gone in
    if leb (length sm) max_state_entries
    then sm
    else if leb (length idle_gone) max_state_entries
    then idle_gone
    else if leb (length expired_gone) max_state_entries
    then expired_gone
    else evict_active (length expired_gone) expired_gone

-- The calls of the methods. The server sets none of the states to Go's empty string.
pub data Call : Type 0 where
  gets begins cancels deletes completes : Text → Call
  sets : Text → (state : AuthState) → is_unset state ≡ false → Call
  evicts : Call

pub step : Time → Call → StateManager → StateManager
step now (gets key) sm = (get_state now now key sm).0
step now (begins key) sm = (begin_login now key sm).0
step now (cancels key) sm = cancel_login key sm
step now (deletes key) sm = delete_entry key sm
step now (completes key) sm = complete_login key sm
step now (sets key state _) sm = set_state now key state sm
step now evicts sm = evict_stale now sm

pub run : List (Time × Call) → StateManager → StateManager
run [] sm = sm
run ((now, c) ∷ cs) sm = run cs (step now c sm)
