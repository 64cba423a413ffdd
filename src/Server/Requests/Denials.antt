-- ===== src/Server/Requests/Denials.antt =====
-- pkg/daemon/server.go: a `get-token` that fails, and what a refresh writes.
use kubelogin_daemon.Prelude.{
  ◌≡◌, ◌≢◌, refl, sym, inl, inr, ◌⊎◌, false, not, ◌&&◌, Option, none, some, [], arith, ltb,
  Option-cases, Bool-cases,
}
use mathlib.Core.Path.{subst}
use kubelogin_daemon.Text.{Text, text_eq_refl}
use kubelogin_daemon.Assoc.{lookup, lookup-insert}
use kubelogin_daemon.State.{Time, AuthState, needs_login_entry, set_state, get_state, is_login}
use kubelogin_daemon.Persist.{Codec, loaded, load_persisted_token}
use kubelogin_daemon.Persist.Loading.{no_read_faults}
use kubelogin_daemon.Refresher.{Network}
use kubelogin_daemon.Token.{
  TokenManager, TokenEntry, Refreshed, refreshed, not_refreshed, apply_refresh, get_token,
}
use kubelogin_daemon.Ipc.{Request, Response, Status}
use kubelogin_daemon.Server.{Server, Env, persist}
use kubelogin_daemon.Server.Requests.{
  with_key, classify_refresh_error, put_state, put_manager, persist_refreshed, run_refresh,
  finish_get_token, refresh_for_token, serve_token, handle_get_token,
}
use kubelogin_daemon.Server.Requests.Sequences.{IsAccepted}
use kubelogin_daemon.Server.Requests.Saving.{CanSave, persist-loads}

-- The answer is a success, or it has no token and the key now needs a login.
abbrev IsSettled : Text → Server × Response → Type 0
IsSettled key (s, r) =
    (r.status ≡ Status.success) ⊎ ((r.token ≡ []) × (lookup key s.states ≡ some needs_login_entry))

needs_login_state :
    (now : Time) (key : Text) (s : Server)
    → lookup key (put_state now key AuthState.needs_login s).states ≡ some needs_login_entry
unfolding set_state
needs_login_state now key s =
    ground (arith, lookup-insert key key needs_login_entry s.states, text_eq_refl key)

classify_has_no_token : (e : Text) → (classify_refresh_error e).token ≡ []
unfolding classify_refresh_error
classify_has_no_token e = ground arith

module _ (codec : Codec) (net : Network) (env : Env) where
  finish-IsSettled :
      (key : Text) (r : Server × Refreshed) → IsSettled key (finish_get_token codec net env key r)
  unfolding finish_get_token
  finish-IsSettled key (s, refreshed t) = inl refl
  finish-IsSettled key (s, not_refreshed e) =
      inr (classify_has_no_token e.text, needs_login_state env.later key s)

  serve_token-IsSettled :
      (key : Text) (req : Request) (found : Server × Option TokenManager)
      → IsSettled key (serve_token codec net env key req found)
  unfolding serve_token refresh_for_token
  serve_token-IsSettled key req (s, none) = inr (refl, needs_login_state env.now key s)
  serve_token-IsSettled key req (s, some m) = elim (Option-cases (get_token env.now m).1) [
    | inl c ↦ rw (c, serve_token) (finish-IsSettled key _)
    | inr ((id_token, expiry), c) ↦
        elim (Bool-cases (not (ltb expiry env.now) && not req.force_refresh)) [
          | inl e ↦ rw (c, serve_token, e) (inl refl)
          | inr e ↦ rw (c, serve_token, e) (finish-IsSettled key _)
        ]
  ]

  -- A `get-token` of a proper key that does not succeed, while no login of the key is under way,
  -- sends no token, and leaves the key in the state NEEDS_LOGIN.
  pub handle_get_token_fails :
      (req : Request) (s : Server)
      → IsAccepted req.cache_key
      → is_login (get_state env.now env.now req.cache_key s.states).1.0 ≡ false
      → (handle_get_token codec net env req s).1.status ≢ Status.success
      → let (s', r) = handle_get_token codec net env req s in
        (r.token ≡ []) × (lookup req.cache_key s'.states ≡ some needs_login_entry)
  unfolding handle_get_token
  handle_get_token_fails req s k idle failed =
      let settled : IsSettled req.cache_key (handle_get_token codec net env req s) =
        rw (k, handle_get_token, with_key, idle) (serve_token-IsSettled req.cache_key req _) in
      elim settled [ inl ok ↦ absurd (failed ok) | inr x ↦ x ]

  abbrev IsSaved : Text → TokenEntry → Server → Type 0
  IsSaved key t s =
      (load_persisted_token codec no_read_faults key s.dir
        ≡ (s.dir, loaded t.id_token t.refresh_token))
      × (m : TokenManager) × (lookup key s.managers ≡ some m)
      × (m.current ≡ some t)

  refreshed-IsSaved :
      (key : Text) (m : TokenManager) (s : Server) (t : TokenEntry)
      → CanSave codec (record env { now = env.later }) key t.id_token t.refresh_token s.dir
      → IsSaved key t (
          persist_refreshed codec net env key
            (refreshed t)
            (put_manager key (apply_refresh env.later (refreshed t) m) s))
  unfolding apply_refresh persist
  refreshed-IsSaved key m s t can =
      let m' = apply_refresh env.later (refreshed t) m in
      (
        persist-loads codec (record env { now = env.later }) key t.id_token t.refresh_token
            (put_manager key m' s) can,
        m',
        ground (arith, lookup-insert key key m' s.managers, text_eq_refl key),
        ground arith,
      )

  -- A refresh that succeeds, for whichever command, leaves the new tokens in the file of the key,
  -- where that can be written: the refresh token that the provider has rotated is what a load finds.
  pub run_refresh_saves :
      (key : Text) (m : TokenManager) (s : Server) (t : TokenEntry)
      → (run_refresh codec net env key m s).1 ≡ refreshed t
      → CanSave codec (record env { now = env.later }) key t.id_token t.refresh_token s.dir
      → let s' = (run_refresh codec net env key m s).0 in
        (load_persisted_token codec no_read_faults key s'.dir
          ≡ (s'.dir, loaded t.id_token t.refresh_token))
        × (m' : TokenManager) × (lookup key s'.managers ≡ some m')
        × (m'.current ≡ some t)
  unfolding run_refresh
  run_refresh_saves key m s t e can =
      subst
        (λ (r : Refreshed).
          IsSaved key t (
            persist_refreshed codec net env key r
              (put_manager key (apply_refresh env.later r m) s)))
        (sym e) (refreshed-IsSaved key m s t can)
