-- ===== src/Token/Refreshing.antt =====
-- pkg/daemon/token_manager.go, `Refresh` and the callback of the proactive refresh.
use kubelogin_daemon.Prelude.{
  leb, if◌then◌else◌, ℕ, ◌+◌, ◌≤◌, ◌≡◌, refl, ◌-◌, inl, inr, ◌⊎◌, Bool, true, false, ◌||◌, none,
  some, arith, Option-cases, Bool-cases,
}
use mathlib.Core.Path.{subst}
use kubelogin_daemon.Text.{Text, codes, is_empty, has_prefix, contains}
use kubelogin_daemon.State.{Time}
use kubelogin_daemon.Refresher.{Network, OidcRefresher, TokenSet, Result, ok, err}
use kubelogin_daemon.Refresher
use kubelogin_daemon.Refresher.Exchange.{Obtained, refresh-Obtained}
use kubelogin_daemon.Token.{
  TokenManager, TokenEntry, Timer, armed, RefreshError, Refreshed, refreshed, not_refreshed,
  is_revoked, refresh_error, refresh_result, apply_refresh, retry_after, proactive_callback,
  retry_callback, entry_of, schedule_retry, retry_delay, refresh_delay,
}

abbrev has_empty_refresh_token : TokenManager → Bool
has_empty_refresh_token m = elim m.current [
  | none ↦ false
  | some entry ↦ is_empty entry.refresh_token
]

pub is_revoked-refresh_error :
    (e : Text) → is_revoked (refresh_error e).text ≡ (refresh_error e).is_permanent
unfolding refresh_error contains has_prefix
is_revoked-refresh_error e = elim (Bool-cases (is_revoked e)) [
  | inl h ↦ rw (h, refresh_error) h
  | inr h ↦ rw (h, refresh_error) h
]

not_revoked_texts :
    (is_revoked (codes "no token to refresh") ≡ false)
    × (is_revoked (codes "refresh token is empty, re-authentication required") ≡ false)
unfolding contains has_prefix
not_revoked_texts = (refl, refl)

pub Result-cases {ℓ} :
    {A : Type ℓ} (r : Result A) → ((a : A) × (r ≡ ok a)) ⊎ ((e : Text) × (r ≡ err e))
Result-cases (ok a) = inl (a, refl)
Result-cases (err e) = inr (e, refl)

-- An error of `Refresh` is permanent, and so not retried, exactly when the manager holds a token
-- whose refresh token is empty, or the text of the error says that the grant is invalid or the
-- token revoked; whatever the provider answers.
refresh_result-is_permanent :
    (exchange : OidcRefresher → Text → Result TokenSet) (now : Time) (m : TokenManager)
    (e : RefreshError)
    → refresh_result exchange now m ≡ not_refreshed e
    → e.is_permanent ≡ (has_empty_refresh_token m || is_revoked e.text)
unfolding refresh_result
refresh_result-is_permanent exchange now m e h = elim (Option-cases m.current) [
  | inl c ↦ ground (arith, not_revoked_texts)
  | inr (t, c) ↦ elim (Result-cases (exchange m.refresher t.refresh_token)) [
    | inl (s, a) ↦ ground (arith, not_revoked_texts)
    | inr (x, a) ↦ ground (arith, not_revoked_texts, is_revoked-refresh_error x)
  ]
]

-- Where the provider refuses a refresh with an error text, the callback of either timer does no more
-- than to schedule one retry: for the entry that its timer was set for, or for the current one. It
-- leaves the manager as it is, and so retries no more, where the text says that the grant is invalid
-- or the token revoked, and where the manager has been stopped.
pub callbacks_after_refusal :
    (exchange : OidcRefresher → Text → Result TokenSet) (now : Time) (jitter : ℕ)
    (entry current : TokenEntry) (m : TokenManager) (text : Text)
    → m.current ≡ some current
    → is_empty current.refresh_token ≡ false
    → exchange m.refresher current.refresh_token ≡ err text
    → let over =
        m.canceled
        || (contains text (codes "invalid_grant")
            || contains text (codes "token has been revoked")) in
      (proactive_callback exchange now jitter entry m
        ≡ (if over then m else schedule_retry now jitter entry m))
      × (retry_callback exchange now jitter m
          ≡ (if over then m else schedule_retry now jitter current m))
unfolding proactive_callback retry_callback refresh_result refresh_error apply_refresh retry_after
callbacks_after_refusal exchange now jitter entry current m text at present refused =
    let result : refresh_result exchange now m ≡ not_refreshed (refresh_error text) =
      rw (at, refresh_result) (rw (present, refused) refl) in
    (ground arith, ground arith)

-- A refresh that succeeds started from a token with a refresh token. What it brings is obtained
-- from the provider with that token and the manager's present configuration, and again has a
-- refresh token that is not empty.
pub refresh_result-Obtained :
    (net : Network) (now : Time) (m : TokenManager) (entry : TokenEntry)
    → refresh_result (Refresher.refresh net) now m ≡ refreshed entry
    → (old : TokenEntry) × (m.current ≡ some old)
      × (is_empty old.refresh_token ≡ false)
      × Obtained net m.refresher old.refresh_token (record {
        id_token = entry.id_token;
        refresh_token = entry.refresh_token;
        expiry = entry.expiry;
      })
      × (is_empty entry.refresh_token ≡ false)
      × (entry.obtained_at ≡ now)
unfolding refresh_result
refresh_result-Obtained net now m entry h = elim (Option-cases m.current) [
  | inl c ↦ absurd (ground arith)
  | inr (old, c) ↦ elim (Result-cases (Refresher.refresh net m.refresher old.refresh_token)) [
    | inr (x, a) ↦ absurd (ground arith)
    | inl (s, a) ↦
        let o = refresh-Obtained net m.refresher old.refresh_token s a in
        let e : entry_of now s ≡ entry = ground arith in
        (
          old,
          c,
          ground arith,
          subst
              (λ (x : TokenEntry). Obtained net m.refresher old.refresh_token (record {
                id_token = x.id_token;
                refresh_token = x.refresh_token;
                expiry = x.expiry;
              }))
              e o,
          ground (arith, o.rotated),
          ground arith,
        )
  ]
]

-- What `m'`, after the callback of the proactive refresh of `entry`, is to the manager `m` before,
-- by what the refresh has brought.
abbrev pub AfterCallback : Time → TokenEntry → TokenManager → TokenManager → Refreshed → Type 0
AfterCallback now entry m m' (refreshed t) =
    (m'.current ≡ some t)
    × (m'.retry_count ≡ 0)
    × ((t.expiry ≤ now) ⊎ (m'.refresh_timer ≡ armed (refresh_delay m (t.expiry - now))))
AfterCallback now entry m m' (not_refreshed e) =
    (m'.current ≡ m.current)
    × (((e.is_permanent ≡ true) × (m' ≡ m))
        ⊎ ((e.is_permanent ≡ false)
            × (d : Time) × (m'.refresh_timer ≡ armed d)
            × (now + d ≤ entry.expiry))
        ⊎ ((e.is_permanent ≡ false) × (entry.expiry ≤ now) × (m'.refresh_timer ≡ Timer.spent)))

callback_outcome :
    (now : Time) (jitter : ℕ) (entry : TokenEntry) (m : TokenManager) (r : Refreshed)
    → m.stopped ≡ false
    → m.refresh_timer ≡ Timer.spent
    → AfterCallback now entry m (retry_after now jitter (some entry) r (apply_refresh now r m)) r
unfolding retry_after apply_refresh schedule_retry
callback_outcome now jitter entry m (refreshed t) s f = (
  ground arith,
  ground arith,
  elim (Bool-cases (leb t.expiry now)) [ inl e ↦ inl (ground arith) | inr e ↦ inr (ground arith) ],
)
callback_outcome now jitter entry m (not_refreshed e) s f = (
  ground arith,
  elim (Bool-cases e.is_permanent) [
    | inl p ↦ inl (p, ground arith)
    | inr p ↦ elim (Bool-cases (leb entry.expiry now)) [
      | inl x ↦ inr (inr (p, ground arith, ground arith))
      | inr x ↦ inr (
          inl (
            p,
            retry_delay (m.retry_count + 1) jitter (entry.expiry - now),
            ground arith,
            unfold retry_delay in ground arith,
          ))
    ]
  ],
)

-- In a manager that is not stopped, whose timer has fired: a new token becomes current, with no
-- failures counted, and the timer is set for it if it has not expired. An error keeps the token;
-- a permanent one changes nothing, and any other sets the timer for a retry within the life of the
-- token that the timer was set for, or leaves it spent if that token has expired.
pub proactive_callback_cases :
    (exchange : OidcRefresher → Text → Result TokenSet) (now : Time) (jitter : ℕ)
    (entry : TokenEntry) (m : TokenManager)
    → m.stopped ≡ false
    → m.canceled ≡ false
    → m.refresh_timer ≡ Timer.spent
    → AfterCallback now entry m
        (proactive_callback exchange now jitter entry m)
        (refresh_result exchange now m)
unfolding proactive_callback
proactive_callback_cases exchange now jitter entry m s c f =
    simp c (callback_outcome now jitter entry m (refresh_result exchange now m) s f)
