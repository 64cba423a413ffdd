-- ===== src/State/Eviction.antt =====
-- pkg/daemon/state.go, `EvictStale`: the bound on the map, and what it never drops.
use kubelogin_daemon.Prelude.{
  ℕ, ◌+◌, ◌-◌, ◌≤◌, ◌<◌, ◌≡◌, inl, inr, ◌⊎◌, true, false, [], ◌∷◌, arith, leb, length, Bool-cases,
}
use kubelogin_daemon.Assoc.{delete_where, AllValues, delete_where-AllValues, AllValues-delete_where}
use kubelogin_daemon.State.{
  Time, StateEntry, StateManager, is_login, is_active, is_needs_login, has_expired, evict_active,
  evict_stale, max_state_entries, login_in_progress_ttl,
}
use kubelogin_daemon.State.Entries.{IsSound, StateInv, evict_stale-StateInv}

-- An entry that `EvictStale` keeps in the last resort: neither idle, nor expired, nor active.
abbrev pub IsPinned : Time → StateEntry → Type 0
IsPinned now e =
    (is_needs_login e.state ≡ false) × (has_expired now e ≡ false) × (is_active e.state ≡ false)

evict_active-bound :
    (now : Time) (n : ℕ) (sm : StateManager) (d : ℕ)
    → n ≡ d + length sm
    → max_state_entries < n
    → AllValues (λ e. is_needs_login e.state ≡ false) sm
    → AllValues (λ e. has_expired now e ≡ false) sm
    → (d + length (evict_active n sm) ≡ max_state_entries)
      ⊎ AllValues (IsPinned now) (evict_active n sm)
unfolding evict_active
evict_active-bound now n [] d e h a b = inr tt
evict_active-bound now n ((k, x) ∷ sm) d e h a b = ground (
  arith,
  evict_active-bound now n sm (d + 1) (omega arith) h a.1 b.1,
  evict_active-bound now (n - 1) sm d (omega arith),
)

evict_active-IsPinned :
    (now : Time) (sm : StateManager)
    → max_state_entries < length sm
    → AllValues (λ e. is_needs_login e.state ≡ false) sm
    → AllValues (λ e. has_expired now e ≡ false) sm
    → (length (evict_active (length sm) sm) ≡ max_state_entries)
      ⊎ AllValues (IsPinned now) (evict_active (length sm) sm)
evict_active-IsPinned now sm h a b = elim (evict_active-bound now _ sm 0 (omega arith) h a b) [
  | inl e ↦ inl (omega arith)
  | inr p ↦ inr p
]

abbrev pub IsLiveLogin : Time → StateEntry → Type 0
IsLiveLogin now e = (is_login e.state ≡ true) × (now ≤ e.login_started + login_in_progress_ttl)

pinned_live :
    (now : Time) (sm : StateManager)
    → AllValues (IsSound now) sm
    → AllValues (IsPinned now) sm
    → AllValues (IsLiveLogin now) sm
unfolding has_expired
pinned_live now [] s p = tt
pinned_live now ((k, e) ∷ sm) s p =
    let sound = s.0 in let pinned = p.0 in (ground arith, pinned_live now sm s.1 p.1)

evict_stale_cases :
    (now : Time) (sm : StateManager)
    → (length (evict_stale now sm) ≤ max_state_entries)
      ⊎ AllValues (IsPinned now) (evict_stale now sm)
unfolding evict_stale
evict_stale_cases now sm =
    let idle = delete_where (λ e. is_needs_login e.state) sm in
    let expired = delete_where (has_expired now) idle in
    let no_idle = delete_where-AllValues (λ e. is_needs_login e.state) sm in
    elim (Bool-cases (leb (length sm) max_state_entries)) [
      | inl h ↦ rw h (inl (ground arith))
      | inr h ↦ rw h (elim (Bool-cases (leb (length idle) max_state_entries)) [
        | inl h ↦ rw h (inl (ground arith))
        | inr h ↦ rw h (elim (Bool-cases (leb (length expired) max_state_entries)) [
          | inl h ↦ rw h (inl (ground arith))
          | inr h ↦
              rw h
                (elim (evict_active-IsPinned now expired (ground arith)
                  (AllValues-delete_where _ (has_expired now) idle no_idle)
                  (delete_where-AllValues (has_expired now) idle)) [
                    | inl e ↦ inl (omega arith)
                    | inr p ↦ inr p
                  ])
        ])
      ])
    ]

-- Over sound entries, `EvictStale` leaves at most 1024 entries, or else nothing but logins that
-- started no more than the TTL ago.
pub evict_stale_bound :
    (now : Time) (sm : StateManager)
    → StateInv now sm
    → (length (evict_stale now sm) ≤ max_state_entries)
      ⊎ AllValues (IsLiveLogin now) (evict_stale now sm)
evict_stale_bound now sm v = elim (evict_stale_cases now sm) [
  | inl h ↦ inl h
  | inr p ↦ inr (pinned_live now _ (evict_stale-StateInv sm v).sound p)
]
