-- ===== src/Server/Managers.antt =====
-- pkg/daemon/server.go: the count of the token managers and its cap.
use kubelogin_daemon.Prelude.{
  ℕ, ◌+◌, ◌≤◌, ◌<◌, ◌≡◌, refl, ◌⊎◌, inl, inr, Bool, true, false, none, some, [], ◌∷◌, arith, ltb,
  length, if◌then◌else◌, Bool-cases, All,
}
use mathlib.Core.Path.{subst}
use kubelogin_daemon.Text.{Text, text_eq_iff}
use kubelogin_daemon.Assoc.{
  Assoc, lookup, insert, has, Unique, Unique-insert, Unique-delete, length-insert, length-delete,
}
use kubelogin_daemon.State.{Time, delete_entry}
use kubelogin_daemon.Persist.{Codec}
use kubelogin_daemon.State.Entries.{StateInv, delete_entry-StateInv}
use kubelogin_daemon.Token.{TokenManager}
use kubelogin_daemon.Server.{
  Server, Env, max_token_managers, oldest, oldest_from, evict, evict_oldest_manager_locked,
}

-- Every key has one manager, the count is their number, and it is within the cap.
pub record Counted (managers : Assoc TokenManager) (count : ℕ) : Type 0 where
  pub unique : Unique managers
  pub exact : count ≡ length managers
  pub capped : count ≤ max_token_managers

-- A manager among those seen, none of which was used longer ago.
abbrev IsOldest : Text × TokenManager → Assoc TokenManager → Type 0
IsOldest r ms = All (λ e. r.1.last_access ≤ e.1.last_access) ms

oldest_from-found :
    (j : Text) (b : TokenManager) (ms : Assoc TokenManager)
    → (r : Text × TokenManager) × (oldest_from (some (j, b)) ms ≡ some r)
      × ((r.0 ≡ j) ⊎ (has r.0 ms ≡ true))
      × (r.1.last_access ≤ b.last_access)
      × IsOldest r ms
unfolding oldest_from lookup
oldest_from-found j b [] = ((j, b), refl, inl refl, omega arith, tt)
oldest_from-found j b ((k, m) ∷ ms) = elim (Bool-cases (ltb m.last_access b.last_access)) [
  | inl e ↦
      let (r, found, there, below, rest) = oldest_from-found k m ms in
      (r, rw e found, inr (ground (arith, text_eq_iff k r.0)), ground arith, (below, rest))
  | inr e ↦
      let (r, found, there, below, rest) = oldest_from-found j b ms in
      (r, rw e found, ground (arith, text_eq_iff k r.0), below, (ground arith, rest))
]

-- Where there is a manager, the one that is chosen is in the map and was used the longest ago.
pub oldest_found :
    (ms : Assoc TokenManager)
    → 0 < length ms
    → (r : Text × TokenManager) × (oldest ms ≡ some r)
      × (has r.0 ms ≡ true)
      × All (λ e. r.1.last_access ≤ e.1.last_access) ms
unfolding oldest oldest_from lookup
oldest_found [] h = elim h [ ]
oldest_found ((k, m) ∷ ms) h =
    let (r, found, there, below, rest) = oldest_from-found k m ms in
    (r, found, ground (arith, text_eq_iff k r.0), (below, rest))

pub oldest_chosen :
    (ms : Assoc TokenManager) (r : Text × TokenManager)
    → oldest ms ≡ some r
    → (0 < length ms) × (has r.0 ms ≡ true) × All (λ e. r.1.last_access ≤ e.1.last_access) ms
unfolding oldest oldest_from
oldest_chosen [] r h = absurd (ground arith)
oldest_chosen ((k, m) ∷ ms) r h =
    let (x, found, there, eldest) = oldest_found ((k, m) ∷ ms) (omega arith) in
    let same : x ≡ r = ground arith in
    (
      omega arith,
      subst (λ (y : Text × TokenManager). has y.0 ((k, m) ∷ ms) ≡ true) same there,
      subst
          (λ (y : Text × TokenManager).
            All (λ (e : Text × TokenManager). y.1.last_access ≤ e.1.last_access) ((k, m) ∷ ms))
          same eldest,
    )

-- The server between two requests, at a time `now`.
pub record ServerInv (now : Time) (s : Server) : Type 0 where
  pub counted : Counted s.managers s.manager_count
  pub states : StateInv now s.states

pub insert-Counted :
    {n : ℕ} (key : Text) (m : TokenManager) (ms : Assoc TokenManager)
    → has key ms ≡ true
    → Counted ms n
    → Counted (insert key m ms) n
insert-Counted key m ms there c =
    let exact = c.exact in
    let same = length-insert key m ms in
    record { unique = Unique-insert key m ms c.unique; exact = ground arith; capped = c.capped }

pub insert_new-Counted :
    {n : ℕ} (key : Text) (m : TokenManager) (ms : Assoc TokenManager)
    → lookup key ms ≡ none
    → n < max_token_managers
    → Counted ms n
    → Counted (insert key m ms) (n + 1)
insert_new-Counted key m ms absent h c =
    let exact = c.exact in
    let more = length-insert key m ms in
    record {
      unique = Unique-insert key m ms c.unique;
      exact = ground arith;
      capped = omega (arith, h);
    }

-- A server with room for one more manager.
abbrev pub HasRoom : Time → Server × Bool → Type 0
HasRoom now (s, ok) = (ok ≡ true) × (s.manager_count < max_token_managers) × ServerInv now s

module _ (codec : Codec) where
  pub evict-HasRoom :
      {now : Time} (env : Env) (s : Server)
      → ServerInv now s
      → 0 < s.manager_count
      → HasRoom now (evict_oldest_manager_locked codec env s)
  unfolding evict_oldest_manager_locked evict delete_entry
  evict-HasRoom env s v h =
      let c = v.counted in
      let exact = c.exact in
      let capped = c.capped in
      let (r, found, there, eldest) = oldest_found s.managers (omega (arith, exact)) in
      let fewer = length-delete r.0 s.managers c.unique there in
      rw found (
        refl,
        omega (arith, h, capped),
        record {
          counted = record {
            unique = Unique-delete r.0 s.managers c.unique;
            exact = omega (arith, fewer, exact);
            capped = omega (arith, capped);
          };
          states = delete_entry-StateInv r.0 s.states v.states;
        },
      )

  pub with_room-HasRoom :
      {now : Time} (env : Env) (s : Server) (full : Bool)
      → (full ≡ false → s.manager_count < max_token_managers)
      → (full ≡ true → 0 < s.manager_count)
      → ServerInv now s
      → HasRoom now (if full then evict_oldest_manager_locked codec env s else (s, true))
  with_room-HasRoom env s true l h v = evict-HasRoom env s v (h refl)
  with_room-HasRoom env s false l h v = (refl, l refl, v)
