-- ===== src/State/Logins.antt =====
-- pkg/daemon/state.go: at most one login runs for a key, and a login that was abandoned gives way.
use kubelogin_daemon.Prelude.{
  ℕ, ◌+◌, ◌≤◌, ◌<◌, ◌≡◌, refl, ◌-◌, Bool, true, false, not, if_both, if◌then◌else◌, List, [], ◌∷◌,
  arith, some,
}
use kubelogin_daemon.Assoc.{
  lookup, Unique, lookup-insert, lookup-delete, lookup-delete_where, Unique-delete_where,
}
use kubelogin_daemon.Text.{Text, text_eq, text_eq_refl, text_eq_iff}
use kubelogin_daemon.State.{
  Time, AuthState, StateEntry, StateManager, login_in_progress_ttl, is_login, has_expired, expire,
  is_needs_login, needs_login_entry, entry_or_new, reread, get_state, set_state, begin_login,
  cancel_login, delete_entry, complete_login, evict_active, evict_stale, Call, gets, begins,
  cancels, deletes, completes, sets, evicts, step, run,
}
use kubelogin_daemon.State.Entries.{StateInv, step-StateInv}

-- A login of the key runs since the time.
abbrev pub login_since : Time → StateEntry
login_since t = record { state = AuthState.login_in_progress; login_started = t }

-- The call does not end a login of the key.
abbrev pub spares : Text → Call → Bool
spares key (gets k) = true
spares key (begins k) = true
spares key (cancels k) = not (text_eq k key)
spares key (deletes k) = not (text_eq k key)
spares key (completes k) = not (text_eq k key)
spares key (sets k _ _) = not (text_eq k key)
spares key evicts = true

evict_active-login :
    (key : Text) (t : Time) (n : ℕ) (sm : StateManager)
    → lookup key sm ≡ some (login_since t)
    → lookup key (evict_active n sm) ≡ some (login_since t)
unfolding evict_active lookup
evict_active-login key t n [] h = h
evict_active-login key t n ((k, e) ∷ sm) h =
    ground (arith, evict_active-login key t n sm, evict_active-login key t (n - 1) sm)

-- A login of the key that started at `t`, no more than the TTL ago, survives `EvictStale` with
-- its start time, however full the map is.
evict_stale-login :
    (now t : Time) (key : Text) (sm : StateManager)
    → now ≤ t + login_in_progress_ttl
    → Unique sm
    → lookup key sm ≡ some (login_since t)
    → lookup key (evict_stale now sm) ≡ some (login_since t)
unfolding evict_stale
evict_stale-login now t key sm h u l =
    let P = λ (m : StateManager). lookup key m ≡ some (login_since t) in
    let idle = lookup-delete_where (λ e. is_needs_login e.state) key sm _ l refl u in
    let expired =
      lookup-delete_where (has_expired now) key _ _ idle (ground arith)
        (Unique-delete_where _ sm u) in
    if_both P _ l (if_both P _ idle (if_both P _ expired (evict_active-login key t _ _ expired)))

get_state-login :
    (now t : Time) (key k : Text) (sm : StateManager)
    → now ≤ t + login_in_progress_ttl
    → lookup key sm ≡ some (login_since t)
    → lookup key (get_state now now k sm).0 ≡ some (login_since t)
unfolding get_state
get_state-login now t key k sm h l =
    ground (arith, text_eq_iff k key, lookup-insert k key needs_login_entry sm)

begin_login-login :
    (now t : Time) (key k : Text) (sm : StateManager)
    → now ≤ t + login_in_progress_ttl
    → lookup key sm ≡ some (login_since t)
    → lookup key (begin_login now k sm).0 ≡ some (login_since t)
unfolding begin_login
begin_login-login now t key k sm h l = ground (
  arith,
  text_eq_iff k key,
  lookup-insert k key (expire now (entry_or_new (lookup k sm))) sm,
  lookup-insert k key (login_since now) sm,
)

step-login :
    (now t : Time) (key : Text) (c : Call) (sm : StateManager)
    → now ≤ t + login_in_progress_ttl
    → spares key c ≡ true
    → Unique sm
    → lookup key sm ≡ some (login_since t)
    → lookup key (step now c sm) ≡ some (login_since t)
unfolding step
step-login now t key (gets k) sm h s u l = get_state-login now t key k sm h l
step-login now t key (begins k) sm h s u l = begin_login-login now t key k sm h l
step-login now t key (cancels k) sm h s u l =
    unfold cancel_login in ground (arith, lookup-insert k key needs_login_entry sm)
step-login now t key (deletes k) sm h s u l =
    unfold delete_entry in ground (arith, lookup-delete k key sm)
step-login now t key (completes k) sm h s u l =
    unfold complete_login in
    ground (arith, lookup-insert k key (record { state = AuthState.valid; login_started = 0 }) sm)
step-login now t key (sets k state p) sm h s u l =
    unfold set_state in
    ground (
      arith,
      lookup-insert k key
          (record { state = state; login_started = if is_login state then now else 0 }) sm,
    )
step-login now t key evicts sm h s u l = evict_stale-login now t key sm h u l

-- The calls come in the order of the clock, none after `limit`, and none ends a login of the key.
abbrev pub Sparing : Text → Time → Time → List (Time × Call) → Type 0
Sparing key last limit [] = Unit
Sparing key last limit ((now, c) ∷ cs) =
    (last ≤ now) × (now ≤ limit) × (spares key c ≡ true) × Sparing key now limit cs

run-login :
    (last t : Time) (key : Text) (cs : List (Time × Call)) (sm : StateManager)
    → 0 < last
    → Sparing key last (t + login_in_progress_ttl) cs
    → StateInv last sm
    → lookup key sm ≡ some (login_since t)
    → lookup key (run cs sm) ≡ some (login_since t)
unfolding run
run-login last t key [] sm p s v l = l
run-login last t key ((now, c) ∷ cs) sm p s v l =
    run-login now t key cs (step now c sm) (omega arith) s.3
      (step-StateInv c sm s.0 (omega arith) v) (step-login now t key c sm s.1 s.2 v.unique l)

pub begin_login_started :
    (t : Time) (key : Text) (sm : StateManager)
    → (begin_login t key sm).1 ≡ (true, t)
    → lookup key (begin_login t key sm).0 ≡ some (login_since t)
unfolding begin_login
begin_login_started t key sm h =
    ground (arith, text_eq_refl key, lookup-insert key key (login_since t) sm)

pub begin_login_busy :
    (t now : Time) (key : Text) (sm : StateManager)
    → now ≤ t + login_in_progress_ttl
    → lookup key sm ≡ some (login_since t)
    → (begin_login now key sm).1 ≡ (false, t)
unfolding begin_login
begin_login_busy t now key sm h l = ground arith

-- After a begin-login that was granted at time `t`, and any later calls that do not cancel,
-- complete, delete or overwrite the state of that key, made up to the TTL after `t`, another
-- begin-login for the key up to the TTL after `t` is refused, with `t` as the start of the login.
pub begin_login_exclusive :
    (t now : Time) (key : Text) (sm : StateManager) (cs : List (Time × Call))
    → 0 < t
    → StateInv t sm
    → (begin_login t key sm).1 ≡ (true, t)
    → Sparing key t (t + login_in_progress_ttl) cs
    → now ≤ t + login_in_progress_ttl
    → (begin_login now key (run cs (begin_login t key sm).0)).1 ≡ (false, t)
unfolding step
begin_login_exclusive t now key sm cs p v granted s h = begin_login_busy t now key _ h (
    run-login t t key cs _ p s (step-StateInv (begins key) sm (omega arith) p v)
      (begin_login_started t key sm granted))

-- A login that started more than the TTL ago blocks nobody: `GetState` reports NEEDS_LOGIN and
-- forgets the login, whatever the second reading of the clock, and a begin-login is granted.
pub login_gives_way :
    (t now later : Time) (key : Text) (sm : StateManager)
    → 0 < t
    → t + login_in_progress_ttl < now
    → now ≤ later
    → lookup key sm ≡ some (login_since t)
    → let (sm', (state, started)) = get_state now later key sm in
      (state ≡ AuthState.needs_login)
      × (started ≡ 0)
      × (lookup key sm' ≡ some needs_login_entry)
      × ((begin_login now key sm).1 ≡ (true, now))
unfolding get_state begin_login
login_gives_way t now later key sm p old h l =
    ground (arith, text_eq_refl key, lookup-insert key key needs_login_entry sm)

-- Where the second critical section of `GetState` finds an entry for the key, and reports
-- LOGIN_IN_PROGRESS with a start time, the login is the one that it has found, and no older than the
-- TTL, whatever the first critical section has seen.
reread-login_fresh :
    (now : Time) (key : Text) (seen : StateEntry) (sm : StateManager) {e : StateEntry}
    → lookup key sm ≡ some e
    → is_login (reread now key seen sm).1.state ≡ true
    → 0 < (reread now key seen sm).1.login_started
    → let r = (reread now key seen sm).1 in
      (r ≡ e) × (now ≤ r.login_started + login_in_progress_ttl)
unfolding reread
reread-login_fresh now key seen sm l i p = ground arith
