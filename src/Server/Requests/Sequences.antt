-- ===== src/Server/Requests/Sequences.antt =====
-- pkg/daemon/server.go: what one request means for the next of the same key.
use kubelogin_daemon.Prelude.{
  ◌+◌, ◌≤◌, ◌≡◌, refl, sym, ◌∙◌, inl, inr, true, false, not, ◌&&◌, ◌||◌, Option, none, some, [],
  arith, ltb, length, Option-cases, Bool-cases,
}
use kubelogin_daemon.Text.{Text, text_eq_refl, is_empty}
use kubelogin_daemon.Assoc.{lookup, lookup-insert}
use kubelogin_daemon.State.{
  Time, AuthState, StateEntry, StateManager, is_login, get_state, begin_login, complete_login,
  has_expired, login_in_progress_ttl,
}
use kubelogin_daemon.State.Logins.{login_since, begin_login_started, begin_login_busy}
use kubelogin_daemon.Persist.{Codec}
use kubelogin_daemon.Jwt
use kubelogin_daemon.Jwt.{parse_token_expiry}
use kubelogin_daemon.Refresher.{Network}
use kubelogin_daemon.Token.{
  TokenManager, TokenEntry, get_token, set_refresher, set_initial_token, new_token_manager,
}
use kubelogin_daemon.Ipc.{Request, Response, Status, refresher_of}
use kubelogin_daemon.Server.{Server, Env, persist, get_or_create_token_manager, new_config}
use kubelogin_daemon.Server.Managers.{ServerInv}
use kubelogin_daemon.Server.Admission.{
  Stored, new_entry, admit_stored-Stored, set_initial_token-current,
}
use kubelogin_daemon.Server.Requests.{
  key_error, with_key, serve_token, handle_get_token, stored, store_with_expiry, handle_store_token,
  handle_begin_login, max_token_size,
}

-- The key is one that the handlers accept.
abbrev pub IsAccepted : Text → Type 0
IsAccepted key = key_error key ≡ none

get_state_settled :
    (now : Time) (key : Text) (sm : StateManager) (e : StateEntry)
    → lookup key sm ≡ some e
    → has_expired now e ≡ false
    → get_state now now key sm ≡ (sm, (e.state, e.login_started))
unfolding get_state
get_state_settled now key sm e at h = rw (at, get_state, h) refl

pub get_token_at :
    (now : Time) (m : TokenManager) (t : TokenEntry)
    → m.current ≡ some t
    → (get_token now m).1 ≡ some (t.id_token, t.expiry)
unfolding get_token
get_token_at now m t at = ground arith

module _ (codec : Codec) (net : Network) where
  -- Where a manager is there with a token that has not expired, and no login is under way, it is
  -- the answer.
  pub get_token_cached :
      (env : Env) (req : Request) (s : Server) (m : TokenManager) (t : TokenEntry) (e : StateEntry)
      → IsAccepted req.cache_key
      → lookup req.cache_key s.managers ≡ some m
      → m.current ≡ some t
      → lookup req.cache_key s.states ≡ some e
      → is_login e.state ≡ false
      → env.now ≤ t.expiry
      → req.force_refresh ≡ false
      → let r = (handle_get_token codec net env req s).1 in
        (r.status ≡ Status.success) × (r.token ≡ t.id_token) × (r.expiry ≡ t.expiry)
  unfolding handle_get_token serve_token has_expired get_or_create_token_manager
  get_token_cached env req s m t e k at now_at st login fresh force =
      let m' = set_refresher (refresher_of req) m in
      let settled = get_state_settled env.now req.cache_key s.states e st (ground arith) in
      let token = get_token_at env.now m' t (unfold set_refresher in now_at) in
      let ok : not (ltb t.expiry env.now) && not req.force_refresh ≡ true = ground arith in
      rw
        (
          k, handle_get_token, with_key, settled, login, get_or_create_token_manager, at,
          serve_token, token, ok,
        )
        (refl, refl, refl)

  -- The answer while a login runs.
  get_token_in_login :
      (env : Env) (req : Request) (s : Server) (started : Time)
      → IsAccepted req.cache_key
      → lookup req.cache_key s.states
        ≡ some (record { state = AuthState.login_in_progress; login_started = started })
      → env.now ≤ started + login_in_progress_ttl
      → let (s', r) = handle_get_token codec net env req s in
        (s' ≡ s)
        × (r.status ≡ Status.login_in_progress)
        × (r.token ≡ [])
        × (r.login_started_at ≡ some started)
  unfolding handle_get_token has_expired
  get_token_in_login env req s started k at h =
      let settled = get_state_settled env.now req.cache_key s.states _ at (ground arith) in
      rw (k, handle_get_token, with_key, settled) (refl, refl, refl, refl)

  -- What a request to store a token leaves that has succeeded.
  abbrev IsStored : Env → Request → Server × Response → Type 0
  IsStored env req (s, r) =
      r.status ≡ Status.success
      → (m : TokenManager) × (expiry : Time) × (lookup req.cache_key s.managers ≡ some m)
        × (m.current ≡ some (new_entry codec env.now req.id_token req.refresh_token expiry))
        × (lookup req.cache_key s.states
            ≡ some (record { state = AuthState.valid; login_started = 0 }))
        × (r.expiry ≡ expiry)

  stored-IsStored :
      (env : Env) (req : Request) (expiry : Time) (o : Option Server) (s : Server)
      → Stored codec env.now req.cache_key
          (refresher_of req)
          (new_entry codec env.now req.id_token req.refresh_token expiry)
          o
      → IsStored env req (stored codec net env req expiry o s)
  unfolding stored persist complete_login
  stored-IsStored env req expiry none s a =
      λ (ok : Status.error ≡ Status.success). absurd (ground arith)
  stored-IsStored env req expiry (some s') s (v, m, at, now_at, same) = λ ok. (
    m,
    expiry,
    at,
    now_at,
    ground (
      arith,
      lookup-insert req.cache_key req.cache_key
          (record { state = AuthState.valid; login_started = 0 }) s'.states,
      text_eq_refl req.cache_key,
    ),
    refl,
  )

  store_with_expiry-IsStored :
      (env : Env) (req : Request) (expiry : Jwt.Result Time) (s : Server)
      → ServerInv env.now s
      → IsStored env req (store_with_expiry codec net env req expiry s)
  unfolding store_with_expiry
  store_with_expiry-IsStored env req (Jwt.err e) s v =
      λ (ok : Status.error ≡ Status.success). absurd (ground arith)
  store_with_expiry-IsStored env req (Jwt.ok expiry) s v = stored-IsStored env req expiry _ s (
      admit_stored-Stored codec env req.cache_key req
        (set_initial_token env.now req.id_token req.refresh_token expiry
          (new_token_manager env.now (new_config req.cache_key req)))
        req.id_token req.refresh_token expiry s
        (unfold set_initial_token new_token_manager in ground arith)
        (set_initial_token-current codec env.now req.id_token req.refresh_token expiry _) v)

  pub handle_store_token-IsStored :
      (env : Env) (req : Request) (s : Server)
      → ServerInv env.now s
      → IsAccepted req.cache_key
      → IsStored env req (handle_store_token codec net env req s)
  unfolding handle_store_token
  handle_store_token-IsStored env req s v k =
      let handled =
        store_with_expiry-IsStored env req (parse_token_expiry net.parse_json req.id_token) s v in
      elim (Bool-cases (is_empty req.id_token)) [
        | inl e ↦
            rw (k, handle_store_token, with_key, e)
              (λ (ok : Status.error ≡ Status.success). absurd (ground arith))
        | inr e ↦
            elim (Bool-cases (
              ltb max_token_size (length req.id_token)
              || ltb max_token_size (length req.refresh_token))) [
                | inl l ↦
                    rw (k, handle_store_token, with_key, e, l)
                      (λ (ok : Status.error ≡ Status.success). absurd (ground arith))
                | inr l ↦ rw (k, handle_store_token, with_key, e, l) handled
              ]
      ]

  -- A key that is refused is not stored under.
  pub handle_store_token-IsAccepted :
      (env : Env) (req : Request) (s : Server)
      → (handle_store_token codec net env req s).1.status ≡ Status.success
      → IsAccepted req.cache_key
  unfolding handle_store_token
  handle_store_token-IsAccepted env req s ok = elim (Option-cases (key_error req.cache_key)) [
    | inl e ↦ e
    | inr (r, e) ↦
        let refused : r.status ≡ Status.error = ground arith in
        let answered : (handle_store_token codec net env req s).1.status ≡ r.status =
          rw (e, handle_store_token, with_key) refl in
        absurd (ground arith)
  ]

  -- A token that `store-token` has accepted is what a later `get-token` of the same key answers with,
  -- up to its expiry and unless it asks for a refresh; whatever login was under way is over. Other
  -- requests in between are not considered.
  pub store_then_get_token :
      (before after : Env) (req next : Request) (s : Server)
      → ServerInv before.now s
      → (handle_store_token codec net before req s).1.status ≡ Status.success
      → next.cache_key ≡ req.cache_key
      → next.force_refresh ≡ false
      → after.now ≤ (handle_store_token codec net before req s).1.expiry
      → let (s', answer) = handle_store_token codec net before req s in
        let r = (handle_get_token codec net after next s').1 in
        (r.status ≡ Status.success) × (r.token ≡ req.id_token) × (r.expiry ≡ answer.expiry)
  store_then_get_token before after req next s v ok same force fresh =
      let k = handle_store_token-IsAccepted before req s ok in
      let (m, expiry, at, now_at, st, e) = handle_store_token-IsStored before req s v k ok in
      let (success, token, expires) =
        get_token_cached after next (handle_store_token codec net before req s).0 m
          (new_entry codec before.now req.id_token req.refresh_token expiry)
          (record { state = AuthState.valid; login_started = 0 }) (rw same k) (rw same at) now_at
          (rw same st) refl (omega (arith, fresh, e)) force in
      (success, token, expires ∙ sym e)

  begin_login-granted :
      (env : Env) (req : Request) (s : Server)
      → IsAccepted req.cache_key
      → (handle_begin_login codec net env req s).1.status ≡ Status.success
      → (begin_login env.now req.cache_key s.states).1 ≡ (true, env.now)
  unfolding handle_begin_login begin_login
  begin_login-granted env req s k ok = ground arith

  begin_login-states :
      (env : Env) (req : Request) (s : Server)
      → IsAccepted req.cache_key
      → (handle_begin_login codec net env req s).0.states
        ≡ (begin_login env.now req.cache_key s.states).0
  unfolding handle_begin_login
  begin_login-states env req s k = ground arith

  begin_login-refused :
      (env : Env) (req : Request) (s : Server) (since : Time)
      → IsAccepted req.cache_key
      → (begin_login env.now req.cache_key s.states).1 ≡ (false, since)
      → let again = (handle_begin_login codec net env req s).1 in
        (again.status ≡ Status.login_in_progress) × (again.login_started_at ≡ some since)
  unfolding handle_begin_login
  begin_login-refused env req s since k e = rw (k, handle_begin_login, with_key, e) (refl, refl)

  -- A login that `begin-login` has granted: up to the TTL of five minutes,
  -- `get-token` of the key answers LOGIN_IN_PROGRESS with its start, gives no token, and changes
  -- nothing; and a second `begin-login` is refused, with the same start. Other requests in between
  -- are not considered.
  pub begin_login_blocks :
      (before after : Env) (req next : Request) (s : Server)
      → IsAccepted req.cache_key
      → (handle_begin_login codec net before req s).1.status ≡ Status.success
      → next.cache_key ≡ req.cache_key
      → after.now ≤ before.now + login_in_progress_ttl
      → let s' = (handle_begin_login codec net before req s).0 in
        let (s'', r) = handle_get_token codec net after next s' in
        let again = (handle_begin_login codec net after next s').1 in
        ((s'' ≡ s')
          × (r.status ≡ Status.login_in_progress)
          × (r.token ≡ [])
          × (r.login_started_at ≡ some before.now))
        × (again.status ≡ Status.login_in_progress)
        × (again.login_started_at ≡ some before.now)
  begin_login_blocks before after req next s k ok same h =
      let key = req.cache_key in
      let granted = begin_login-granted before req s k ok in
      let s' = (handle_begin_login codec net before req s).0 in
      let begun : lookup key s'.states ≡ some (login_since before.now) =
        rw (begin_login-states before req s k)
          (begin_login_started before.now key s.states granted) in
      let (refused, since) =
        begin_login-refused after next s' before.now (rw same k)
          (rw same (begin_login_busy before.now after.now key s'.states h begun)) in
      (get_token_in_login after next s' before.now (rw same k) (rw same begun) h, refused, since)
