-- ===== src/Token/Backoff.antt =====
-- pkg/daemon/token_manager.go: when the timers are due.
use kubelogin_daemon.Prelude.{
  ℕ, zero, suc, ◌+◌, ◌-◌, ◌*◌, ◌/◌, ◌≤◌, ◌<◌, ◌≡◌, refl, false, arith, ltb, if◌then◌else◌, inl, inr,
  ◌⊎◌, Bool-cases, ltb→lt,
}
use kubelogin_daemon.State.{Time}
use kubelogin_daemon.Token.{
  TokenManager, TokenEntry, Config, armed, second, backoff, retry_delay, refresh_delay,
  new_token_manager, schedule_retry, schedule_proactive_refresh,
}

-- The base delay starts at one second, and doubles with each failure up to thirty seconds; half of
-- it, the range of the jitter, is never zero.
backoff_doubles :
    (n : ℕ)
    → (backoff 1 ≡ second)
      × (backoff (n + 2)
          ≡ (if ltb (30 * second) (2 * backoff (n + 1)) then 30 * second else 2 * backoff (n + 1)))
      × (0 < backoff n / 2)
backoff_doubles zero = (refl, refl, omega arith)
backoff_doubles (suc zero) = (refl, refl, omega arith)
backoff_doubles (suc (suc zero)) = (refl, refl, omega arith)
backoff_doubles (suc (suc (suc zero))) = (refl, refl, omega arith)
backoff_doubles (suc (suc (suc (suc zero)))) = (refl, refl, omega arith)
backoff_doubles (suc (suc (suc (suc (suc zero))))) = (refl, refl, omega arith)
backoff_doubles (suc (suc (suc (suc (suc (suc n)))))) = ground arith

backoff-le : (n : ℕ) → backoff n ≤ 30 * second
backoff-le n = ground arith

-- The delay over a base delay, from below and from above.
jittered :
    (b jitter : ℕ)
    → jitter < b / 2
    → (3 * b ≤ 4 * (b / 2 + b / 4 + jitter) + 5) × (4 * (b / 2 + b / 4 + jitter) ≤ 5 * b)
jittered b jitter h = omega arith

retry_delay_bounds :
    (count jitter remaining : ℕ)
    → jitter < backoff count / 2
    → let d = retry_delay count jitter remaining in
      (d ≤ remaining)
      × (4 * d ≤ 5 * backoff count)
      × ((3 * backoff count ≤ 4 * d + 5) ⊎ (d ≡ remaining))
unfolding retry_delay
retry_delay_bounds count jitter remaining h =
    let (low, high) = jittered (backoff count) jitter h in
    elim (Bool-cases (ltb remaining (backoff count / 2 + backoff count / 4 + jitter))) [
      | inl e ↦ rw e (omega arith, omega (arith, high, ltb→lt _ _ e), inr refl)
      | inr e ↦ rw e (not_lt _ _ e, high, inl low)
    ]
  where
    not_lt : (a b : ℕ) → ltb a b ≡ false → b ≤ a
    not_lt a b h = ground arith

-- After the n-th failure in a row of a manager that is not stopped, with a token that has not
-- expired, the timer is due within the remaining life of the token, after no more than 5/4 of the
-- base delay (so no more than 37.5 seconds), and after no less than 3/4 of it, up to the rounding,
-- or else at the expiry. The jitter is what `rand.Int63n` may draw.
pub schedule_retry_bounds :
    (now jitter : ℕ) (entry : TokenEntry) (m : TokenManager)
    → m.stopped ≡ false
    → now < entry.expiry
    → jitter < backoff (m.retry_count + 1) / 2
    → let b = backoff (m.retry_count + 1) in
      (d : Time) × ((schedule_retry now jitter entry m).refresh_timer ≡ armed d)
      × (now + d ≤ entry.expiry)
      × (4 * d ≤ 5 * b)
      × (4 * d ≤ 150 * second)
      × ((3 * b ≤ 4 * d + 5) ⊎ (now + d ≡ entry.expiry))
      × ((schedule_retry now jitter entry m).retry_count ≡ m.retry_count + 1)
unfolding schedule_retry
schedule_retry_bounds now jitter entry m s h j =
    let count = m.retry_count + 1 in
    let (soon, high, low) = retry_delay_bounds count jitter (entry.expiry - now) j in
    let top = backoff-le count in
    (
      retry_delay count jitter (entry.expiry - now),
      unfold retry_delay in ground arith,
      omega (arith, soon),
      high,
      omega (arith, high, top),
      elim low [ inl a ↦ inl a | inr a ↦ inr (omega (arith, a)) ],
      ground arith,
    )

-- The proactive refresh of a token that has not expired is due no sooner than the minimal interval,
-- and before the expiry unless at the minimal interval itself. The manager is not stopped, and its
-- margin is below 100 percent.
pub schedule_proactive_refresh_bounds :
    (now : Time) (entry : TokenEntry) (m : TokenManager)
    → m.stopped ≡ false
    → m.refresh_margin < 100
    → now < entry.expiry
    → let m' = schedule_proactive_refresh now entry m in
      (d : Time) × (m'.refresh_timer ≡ armed d)
      × (m.min_refresh_interval ≤ d)
      × ((now + d < entry.expiry) ⊎ (d ≡ m.min_refresh_interval))
unfolding schedule_proactive_refresh
schedule_proactive_refresh_bounds now entry m s margin h =
    let lifetime = entry.expiry - now in
    let scaled = below_all lifetime m.refresh_margin (omega arith) margin in
    (refresh_delay m lifetime, ground arith, ground arith, ground (arith, scaled))
  where
    below_all : (l p : ℕ) → 0 < l → p < 100 → l * p / 100 < l
    below_all l p h k = grind arith

-- `NewTokenManager` gives the margin a value below 100 percent, and no interval is 0.
pub new_token_manager_defaults :
    (now : Time) (cfg : Config)
    → let m = new_token_manager now cfg in
      (0 < m.refresh_margin)
      × (m.refresh_margin < 100)
      × (0 < m.min_refresh_interval)
      × (0 < m.persist_interval)
unfolding new_token_manager
new_token_manager_defaults now cfg = ground arith
