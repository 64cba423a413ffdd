-- ===== src/State/Examples.antt =====
-- The theorems on pkg/daemon/state.go at concrete maps, and runs of its methods.
use kubelogin_daemon.Prelude.{
  ◌+◌, ◌≤◌, ◌≡◌, refl, ◌⊎◌, true, false, List, [], ◌∷◌, arith, some, length,
}
use kubelogin_daemon.Assoc.{lookup, insert, AllValues}
use kubelogin_daemon.Text.{Text, codes, text_eq}
use kubelogin_daemon.State.{
  Time, AuthState, StateManager, login_in_progress_ttl, max_state_entries, needs_login_entry,
  get_state, begin_login, evict_stale, Call, gets, begins, cancels, completes, evicts, step, run,
  new_state_manager, complete_login,
}
use kubelogin_daemon.State.Entries.{StateInv}
use kubelogin_daemon.State.Logins.{login_since, begin_login_exclusive, login_gives_way}
use kubelogin_daemon.State.Eviction.{IsLiveLogin, evict_stale_bound}

abbrev work : Text
work = codes "ab12"

abbrev home : Text
home = codes "cd34"

abbrev two_keys : StateManager
two_keys =
    (work, login_since 1_000) ∷ (home, record { state = AuthState.valid; login_started = 0 }) ∷ []

two_keys-StateInv : StateInv 2_000 two_keys
unfolding lookup text_eq
two_keys-StateInv = record { unique = (refl, (refl, tt)); sound = ground arith }

new-StateInv : StateInv 1_000 []
new-StateInv = record { unique = tt; sound = tt }

abbrev others : List (Time × Call)
others = (1_500, cancels home) ∷ (1_600, gets work) ∷ (1_700, begins work) ∷ (1_800, evicts) ∷ []

begin_login_exclusive_example :
    (begin_login 2_000 work (run others (begin_login 1_000 work []).0)).1 ≡ (false, 1_000)
unfolding begin_login text_eq lookup
begin_login_exclusive_example =
    begin_login_exclusive 1_000 2_000 work [] others (omega arith) new-StateInv refl (ground arith)
      (omega arith)

login_gives_way_example :
    let now : Time = 2_000 + login_in_progress_ttl in
    let (sm', (state, started)) = get_state now now work two_keys in
    (state ≡ AuthState.needs_login)
    × (started ≡ 0)
    × (lookup work sm' ≡ some needs_login_entry)
    × ((begin_login now work two_keys).1 ≡ (true, now))
unfolding lookup text_eq
login_gives_way_example =
    login_gives_way 1_000 (2_000 + login_in_progress_ttl) (2_000 + login_in_progress_ttl) work
      two_keys (omega arith) (omega arith) (omega arith) refl

evict_stale_bound_example :
    (length (evict_stale 2_000 two_keys) ≤ max_state_entries)
    ⊎ AllValues (IsLiveLogin 2_000) (evict_stale 2_000 two_keys)
evict_stale_bound_example = evict_stale_bound 2_000 two_keys two_keys-StateInv

-- A login, a second attempt that is refused, and the completion.
abbrev login_story : List (Time × Call)
login_story = (10, begins work) ∷ (20, begins work) ∷ (30, completes work) ∷ (40, gets home) ∷ []

login_story_ends :
    run login_story new_state_manager
    ≡ (work, record { state = AuthState.valid; login_started = 0 }) ∷ []
unfolding run step begin_login complete_login get_state lookup insert text_eq new_state_manager
login_story_ends = refl
