-- ===== src/Server/Requests/Ready.antt =====
-- pkg/daemon/server.go: what a `check` that reports ready promises.
use kubelogin_daemon.Prelude.{
  ◌≤◌, ◌≡◌, refl, sym, ◌∙◌, inl, inr, true, false, not, Option, none, some, [], arith, ltb,
  Option-cases, Bool-cases,
}
use mathlib.Core.Path.{subst}
use kubelogin_daemon.Text.{Text, is_empty, text_eq_refl}
use kubelogin_daemon.Assoc.{lookup, has, lookup-insert}
use kubelogin_daemon.State.{
  Time, AuthState, StateEntry, StateManager, get_state, is_login, reread, expire, has_expired,
}
use kubelogin_daemon.Persist.{Codec, loaded, load_persisted_token}
use kubelogin_daemon.Jwt
use kubelogin_daemon.Jwt.{parse_token_expiry}
use kubelogin_daemon.Refresher.{Network}
use kubelogin_daemon.Token.{TokenManager, TokenEntry, get_token}
use kubelogin_daemon.Ipc.{Request, Response, Status}
use kubelogin_daemon.Server.{Server, Env, get_or_create_token_manager, slow_path}
use kubelogin_daemon.Server.Requests.{
  with_key, serve_token, handle_get_token, check_manager, check_in_state, check_state, check_disk,
  handle_check,
}
use kubelogin_daemon.Server.Requests.Sequences.{IsAccepted, get_token_cached}

module _ (codec : Codec) (net : Network) where
  -- What a server has for a key that is reported ready.
  record HasToken (env : Env) (key : Text) (s : Server) (r : Response) : Type 0 where
    manager : TokenManager
    token : TokenEntry
    entry : StateEntry
    managed : lookup key s.managers ≡ some manager
    current : manager.current ≡ some token
    stated : lookup key s.states ≡ some entry
    no_login : is_login entry.state ≡ false
    expires : r.access_token_expiry ≡ some token.expiry

  abbrev IsReady : Env → Text → Server × Response → Type 0
  IsReady env key (s, r) = r.ready ≡ some true → HasToken env key s r

  check_manager-IsReady :
      (env : Env) (key : Text) (r : Response) (o : Option TokenManager) (s : Server)
      (e : StateEntry)
      → lookup key s.states ≡ some e
      → is_login e.state ≡ false
      → IsReady env key (check_manager codec net env key r o s)
  unfolding check_manager get_token
  check_manager-IsReady env key r none s e st l =
      λ (ok : some false ≡ some true). absurd (ground arith)
  check_manager-IsReady env key r (some m) s e st l = elim (Option-cases m.current) [
    | inl c ↦
        rw (c, check_manager, get_token) (λ (ok : some false ≡ some true). absurd (ground arith))
    | inr (t, c) ↦ elim (Bool-cases (not (ltb t.expiry env.now))) [
      | inr x ↦
          rw (c, check_manager, get_token, x)
            (λ (ok : some false ≡ some true). absurd (ground arith))
      | inl x ↦
          rw (c, check_manager, get_token, x)
            (λ ok. record {
              manager = (get_token env.now m).0;
              token = t;
              entry = e;
              managed = ground (
                arith,
                lookup-insert key key (get_token env.now m).0 s.managers,
                text_eq_refl key,
              );
              current = ground arith;
              stated = st;
              no_login = l;
              expires = refl;
            })
    ]
  ]

  check_in_state-IsReady :
      (env : Env) (key : Text) (state : AuthState) (since : Time) (r : Response) (s : Server)
      → r.ready ≡ none
      → (state ≡ AuthState.valid
          → (e : StateEntry) × (lookup key s.states ≡ some e) × (is_login e.state ≡ false))
      → IsReady env key (check_in_state codec net env key state since r s)
  unfolding check_in_state
  check_in_state-IsReady env key AuthState.unset since r s u h = λ ok. absurd (ground arith)
  check_in_state-IsReady env key AuthState.valid since r s u h =
      let (e, st, l) = h refl in check_manager-IsReady env key r (lookup key s.managers) s e st l
  check_in_state-IsReady env key AuthState.needs_login since r s u h =
      λ (ok : some false ≡ some true). absurd (ground arith)
  check_in_state-IsReady env key AuthState.login_in_progress since r s u h =
      λ (ok : some false ≡ some true). absurd (ground arith)
  check_in_state-IsReady env key AuthState.refreshing since r s u h =
      λ (ok : some false ≡ some true). absurd (ground arith)

  get_state-valid :
      (now : Time) (key : Text) (sm : StateManager)
      → (get_state now now key sm).1.0 ≡ AuthState.valid
      → (e : StateEntry) × (lookup key (get_state now now key sm).0 ≡ some e)
        × (is_login e.state ≡ false)
  unfolding get_state reread expire has_expired
  get_state-valid now key sm h = elim (Option-cases (lookup key sm)) [
    | inl c ↦ absurd (ground arith)
    | inr (e, c) ↦ (e, ground arith, ground arith)
  ]

  check_state-IsReady :
      (env : Env) (key : Text) (s : Server) → IsReady env key (check_state codec net env key s)
  unfolding check_state
  check_state-IsReady env key s =
      check_in_state-IsReady env key _ _ _ _ refl (get_state-valid env.now key s.states)

  handle_check-managed :
      (env : Env) (req : Request) (s : Server)
      → has req.cache_key s.managers ≡ true
      → IsAccepted req.cache_key
      → handle_check codec net env req s ≡ check_state codec net env req.cache_key s
  unfolding handle_check
  handle_check-managed env req s there k = ground arith

  handle_check-IsReady :
      (env : Env) (req : Request) (s : Server)
      → has req.cache_key s.managers ≡ true
      → IsAccepted req.cache_key
      → IsReady env req.cache_key (handle_check codec net env req s)
  handle_check-IsReady env req s there k =
      subst (IsReady env req.cache_key) (sym (handle_check-managed env req s there k))
        (check_state-IsReady env req.cache_key s)

  -- Where the daemon has a manager for the key, and `check` reports it ready, a `get-token` that
  -- comes next, not after the expiry that the check has reported, succeeds with that expiry, unless
  -- it asks for a refresh.
  pub check_then_get_token :
      (before after : Env) (req next : Request) (s : Server) (expiry : Time)
      → has req.cache_key s.managers ≡ true
      → IsAccepted req.cache_key
      → (handle_check codec net before req s).1.ready ≡ some true
      → (handle_check codec net before req s).1.access_token_expiry ≡ some expiry
      → next.cache_key ≡ req.cache_key
      → next.force_refresh ≡ false
      → after.now ≤ expiry
      → let s' = (handle_check codec net before req s).0 in
        let r = (handle_get_token codec net after next s').1 in
        (r.status ≡ Status.success) × (r.expiry ≡ expiry)
  check_then_get_token before after req next s expiry there k ready at same force fresh =
      let h = handle_check-IsReady before req s there k ready in
      let reported = h.expires in
      let same_expiry : h.token.expiry ≡ expiry = ground arith in
      let (success, token, expires) =
        get_token_cached codec net after next (handle_check codec net before req s).0 h.manager
          h.token h.entry (rw same k) (rw same h.managed) h.current (rw same h.stated) h.no_login
          (omega (arith, fresh, same_expiry)) force in
      (success, expires ∙ same_expiry)

  handle_check-unmanaged :
      (env : Env) (req : Request) (s : Server)
      → has req.cache_key s.managers ≡ false
      → IsAccepted req.cache_key
      → let (dir, found) = load_persisted_token codec env.read_faults req.cache_key s.dir in
        handle_check codec net env req s
        ≡ check_disk codec net env req.cache_key found (record s { dir = dir })
  unfolding handle_check
  handle_check-unmanaged env req s there k = ground arith

  -- For a key without a manager, whose file holds a token that has not expired and no refresh token,
  -- and of which no login is under way: `check` reports ready, but `get-token` does not load such a
  -- file, and answers that a login is needed.
  pub check_ready_unserved :
      (env : Env) (req : Request) (s : Server) (id_token : Text) (expiry : Time)
      → IsAccepted req.cache_key
      → lookup req.cache_key s.managers ≡ none
      → is_login (get_state env.now env.now req.cache_key s.states).1.0 ≡ false
      → load_persisted_token codec env.read_faults req.cache_key s.dir ≡ (s.dir, loaded id_token [])
      → parse_token_expiry net.parse_json id_token ≡ Jwt.ok expiry
      → is_empty id_token ≡ false
      → env.now ≤ expiry
      → ((handle_check codec net env req s).1.ready ≡ some true)
        × ((handle_get_token codec net env req s).1.status ≡ Status.needs_auth)
  unfolding handle_get_token check_disk get_or_create_token_manager slow_path serve_token
  check_ready_unserved env req s id_token expiry k absent fresh l e n h =
      let unexpired : ltb expiry env.now ≡ false = ground arith in
      let on_disk = handle_check-unmanaged env req s (rw (absent, has) refl) k in
      (
        rw (on_disk, l, check_disk, n, e, unexpired) refl,
        rw
            (
              k, handle_get_token, with_key, fresh, absent, get_or_create_token_manager, l,
              slow_path, serve_token,
            )
            refl,
      )
