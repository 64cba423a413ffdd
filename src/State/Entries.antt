-- ===== src/State/Entries.antt =====
-- pkg/daemon/state.go: what holds of every stored entry between two calls.
use kubelogin_daemon.Prelude.{
  ℕ, ◌≤◌, ◌-◌, ◌<◌, ◌≡◌, refl, inl, inr, Bool, true, false, [], ◌∷◌, arith, none, some, if_both,
  Option-cases,
}
use kubelogin_daemon.Assoc.{
  lookup, insert, Unique, Unique-insert, Unique-delete, Unique-delete_where, AllValues,
  delete_where, AllValues-insert, AllValues-delete, AllValues-delete_where, AllValues-lookup,
}
use kubelogin_daemon.Text.{Text}
use kubelogin_daemon.State.{
  Time, AuthState, StateEntry, StateManager, is_unset, is_login, has_expired, is_needs_login,
  needs_login_entry, get_state, set_state, begin_login, cancel_login, delete_entry, complete_login,
  evict_active, evict_stale, Call, gets, begins, cancels, deletes, completes, sets, evicts, step,
}

-- An entry has a proper state, and a start time exactly when it is a login, none in the future.
pub record IsSound (now : Time) (e : StateEntry) : Type 0 where
  pub is_set : is_unset e.state ≡ false
  pub started : is_login e.state ≡ true → 0 < e.login_started
  pub not_later : e.login_started ≤ now
  pub no_start : is_login e.state ≡ false → e.login_started ≡ 0

pub record StateInv (now : Time) (sm : StateManager) : Type 0 where
  pub unique : Unique sm
  pub sound : AllValues (IsSound now) sm

IsSound-mono : {now later : Time} (e : StateEntry) → now ≤ later → IsSound now e → IsSound later e
IsSound-mono e h s = ground arith

AllSound-mono :
    {now later : Time} (sm : StateManager)
    → now ≤ later
    → AllValues (IsSound now) sm
    → AllValues (IsSound later) sm
AllSound-mono [] h a = tt
AllSound-mono ((k, e) ∷ sm) h a = (IsSound-mono e h a.0, AllSound-mono sm h a.1)

pub StateInv-mono :
    {now later : Time} (sm : StateManager) → now ≤ later → StateInv now sm → StateInv later sm
StateInv-mono sm h v = record { unique = v.unique; sound = AllSound-mono sm h v.sound }

insert-StateInv :
    {now : Time} (k : Text) (e : StateEntry) (sm : StateManager)
    → IsSound now e
    → StateInv now sm
    → StateInv now (insert k e sm)
insert-StateInv k e sm s v = record {
  unique = Unique-insert k e sm v.unique;
  sound = AllValues-insert _ k e sm s v.sound;
}

lookup-IsSound :
    {now : Time} (k : Text) (sm : StateManager) {e : StateEntry}
    → StateInv now sm
    → lookup k sm ≡ some e
    → IsSound now e
lookup-IsSound k sm v h = AllValues-lookup _ k sm v.sound h

pub get_state-StateInv :
    {now : Time} (key : Text) (sm : StateManager)
    → StateInv now sm
    → StateInv now (get_state now now key sm).0
unfolding get_state
get_state-StateInv {now} key sm v =
    let cleared = insert-StateInv key needs_login_entry sm (ground arith) v in ground arith

pub begin_login-StateInv :
    {now : Time} (key : Text) (sm : StateManager)
    → 0 < now
    → StateInv now sm
    → StateInv now (begin_login now key sm).0
unfolding begin_login
begin_login-StateInv {now} key sm p v = elim (Option-cases (lookup key sm)) [
  | inl e ↦ rw (e, begin_login) (insert-StateInv key _ sm (ground arith) v)
  | inr (x, e) ↦
      let old = lookup-IsSound key sm v e in
      let kept = insert-StateInv key x sm old v in
      let fresh =
        insert-StateInv key (record { state = AuthState.login_in_progress; login_started = now }) sm
          (ground arith) v in
      rw (e, begin_login) (ground arith)
]

pub set_state-StateInv :
    {now : Time} (key : Text) (state : AuthState) (sm : StateManager)
    → 0 < now
    → is_unset state ≡ false
    → StateInv now sm
    → StateInv now (set_state now key state sm)
unfolding set_state
set_state-StateInv key state sm p h v = insert-StateInv key _ sm (ground arith) v

pub cancel_login-StateInv :
    {now : Time} (key : Text) (sm : StateManager)
    → StateInv now sm
    → StateInv now (cancel_login key sm)
unfolding cancel_login
cancel_login-StateInv key sm v =
    let cleared = insert-StateInv key needs_login_entry sm (ground arith) v in ground arith

pub delete_entry-StateInv :
    {now : Time} (key : Text) (sm : StateManager)
    → StateInv now sm
    → StateInv now (delete_entry key sm)
unfolding delete_entry
delete_entry-StateInv key sm v = record {
  unique = Unique-delete key sm v.unique;
  sound = AllValues-delete _ key sm v.sound;
}

pub complete_login-StateInv :
    {now : Time} (key : Text) (sm : StateManager)
    → StateInv now sm
    → StateInv now (complete_login key sm)
unfolding complete_login
complete_login-StateInv key sm v = insert-StateInv key _ sm (ground arith) v

evict_active_absent :
    (k : Text) (n : ℕ) (sm : StateManager)
    → lookup k sm ≡ none
    → lookup k (evict_active n sm) ≡ none
unfolding evict_active lookup
evict_active_absent k n [] h = refl
evict_active_absent k n ((j, e) ∷ sm) h =
    ground (arith, evict_active_absent k n sm, evict_active_absent k (n - 1) sm)

evict_active-StateInv :
    (now : Time) (n : ℕ) (sm : StateManager)
    → Unique sm
    → AllValues (IsSound now) sm
    → Unique (evict_active n sm) × AllValues (IsSound now) (evict_active n sm)
unfolding evict_active
evict_active-StateInv now n [] u a = (tt, tt)
evict_active-StateInv now n ((k, e) ∷ sm) u a = ground (
  arith,
  evict_active-StateInv now n sm u.1 a.1,
  evict_active-StateInv now (n - 1) sm u.1 a.1,
  evict_active_absent k n sm u.0,
)

delete_where-StateInv :
    {now : Time} (p : StateEntry → Bool) (sm : StateManager)
    → StateInv now sm
    → StateInv now (delete_where p sm)
delete_where-StateInv p sm v = record {
  unique = Unique-delete_where p sm v.unique;
  sound = AllValues-delete_where _ p sm v.sound;
}

pub evict_stale-StateInv :
    {now : Time} (sm : StateManager) → StateInv now sm → StateInv now (evict_stale now sm)
unfolding evict_stale
evict_stale-StateInv {now} sm v =
    let idle = delete_where-StateInv (λ e. is_needs_login e.state) sm v in
    let expired = delete_where-StateInv (has_expired now) _ idle in
    let (u, a) = evict_active-StateInv now _ _ expired.unique expired.sound in
    if_both (StateInv now) _ v (
      if_both (StateInv now) _ idle
        (if_both (StateInv now) _ expired (record { unique = u; sound = a })))

-- Every call keeps the entries sound, at any later time.
pub step-StateInv :
    {before now : Time} (c : Call) (sm : StateManager)
    → before ≤ now
    → 0 < now
    → StateInv before sm
    → StateInv now (step now c sm)
unfolding step
step-StateInv {before} {now} c sm h p v = go c
  where
    v' : StateInv now sm
    v' = StateInv-mono sm h v

    go : (c : Call) → StateInv now (step now c sm)
    go (gets key) = get_state-StateInv key sm v'
    go (begins key) = begin_login-StateInv key sm p v'
    go (cancels key) = cancel_login-StateInv key sm v'
    go (deletes key) = delete_entry-StateInv key sm v'
    go (completes key) = complete_login-StateInv key sm v'
    go (sets key state e) = set_state-StateInv key state sm p e v'
    go evicts = evict_stale-StateInv sm v'
