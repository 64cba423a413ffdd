-- ===== src/Server/Watch/Idle.antt =====
-- pkg/daemon/server.go: when a tick of `idleWatcher` ends the daemon, and what it refreshes.
use kubelogin_daemon.Prelude.{
  ℕ, ◌-◌, ◌*◌, ◌≡◌, refl, inl, inr, Bool, true, false, not, ◌&&◌, ◌||◌, none, some, List, [], ◌∷◌,
  arith, ltb, ◌==◌, Bool-cases,
}
use kubelogin_daemon.Text.{Text, text_eq, text_eq_iff}
use kubelogin_daemon.Assoc.{Assoc, lookup, Unique}
use kubelogin_daemon.State.{Time}
use kubelogin_daemon.Token.{TokenManager, second}
use kubelogin_daemon.Server.{Server}
use kubelogin_daemon.Server.Watch.{
  shutdown, expires_soon, wake_keys, Socket, TickResult, keeps_running, shuts_down, is_ghost,
  idle_tick,
}

abbrev pub mentions : Text → List Text → Bool
mentions k [] = false
mentions k (j ∷ ks) = text_eq j k || mentions k ks

-- The manager of a key, if there is one, has a token that expires soon.
abbrev pub is_due : Time → Text → Assoc TokenManager → Bool
is_due now k ms = elim (lookup k ms) [ none ↦ false | some m ↦ expires_soon now m ]

wake_keys-mentions :
    (now : Time) (k : Text) (ms : Assoc TokenManager)
    → Unique ms
    → mentions k (wake_keys now ms) ≡ is_due now k ms
unfolding wake_keys lookup
wake_keys-mentions now k [] u = refl
wake_keys-mentions now k ((j, m) ∷ ms) u =
    ground (arith, text_eq_iff j k, wake_keys-mentions now k ms u.1)

-- The time since the last request exceeds a timeout that is not 0.
abbrev pub is_idle : Time → Server → Bool
is_idle now s = not (s.idle_timeout == 0) && ltb s.idle_timeout (now - s.last_request * second)

-- What a tick leaves, by its result.
abbrev pub AfterTick : Time → Time → Server → Server → Socket → TickResult → Type 0
AfterTick now drift s s' socket shuts_down =
    (s'.is_shut_down ≡ true) × (is_ghost socket || is_idle now s ≡ true)
AfterTick now drift s s' socket (keeps_running keys) =
    (is_ghost socket || is_idle now s ≡ false)
    × (s'.is_shut_down ≡ s.is_shut_down)
    × ((k : Text)
        → mentions k keys ≡ (ltb (2 * s.idle_check_tick) drift && is_due now k s.managers))

shutdown-is_shut_down : (s : Server) → (shutdown s).is_shut_down ≡ true
unfolding shutdown
shutdown-is_shut_down s = ground arith

-- A tick ends the daemon exactly when its socket has disappeared or been replaced, or there is an
-- idle timeout and the last request is longer ago. Otherwise it refreshes precisely the keys whose
-- token expires within ten minutes, if the time since the last tick shows that the machine slept.
pub idle_tick_decides :
    (now drift : Time) (tick_count : ℕ) (kept : Text → Bool) (socket : Socket) (s : Server)
    → Unique s.managers
    → let (s', r) = idle_tick now drift tick_count kept socket s in
      AfterTick now drift s s' socket r
unfolding idle_tick
idle_tick_decides now drift tick_count kept socket s u = elim (Bool-cases (is_ghost socket)) [
  | inl g ↦ rw (g, idle_tick) (shutdown-is_shut_down s, ground arith)
  | inr g ↦ elim (Bool-cases (is_idle now s)) [
    | inl i ↦ rw (g, idle_tick, i) (shutdown-is_shut_down _, ground arith)
    | inr i ↦
        rw (g, idle_tick, i)
          (ground arith, refl, λ k. ground (arith, wake_keys-mentions now k s.managers u))
  ]
]
