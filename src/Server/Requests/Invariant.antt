-- ===== src/Server/Requests/Invariant.antt =====
-- pkg/daemon/server.go: the invariant of the server, over every command.
use kubelogin_daemon.Prelude.{
  ◌≤◌, ◌<◌, ◌≡◌, refl, inl, inr, Bool, true, false, ◌||◌, Option, none, some, arith, ltb, length,
  if◌then◌else◌, Option-cases, if_both,
}
use kubelogin_daemon.Text.{Text, text_eq_refl, is_empty}
use kubelogin_daemon.Assoc.{has, lookup-insert}
use kubelogin_daemon.State.{Time, AuthState, is_unset, get_state, begin_login}
use kubelogin_daemon.State.Entries.{
  StateInv-mono, get_state-StateInv, begin_login-StateInv, set_state-StateInv,
  cancel_login-StateInv, complete_login-StateInv,
}
use kubelogin_daemon.Persist.{Codec}
use kubelogin_daemon.Jwt
use kubelogin_daemon.Jwt.{parse_token_expiry}
use kubelogin_daemon.Refresher.{Network, refresh}
use kubelogin_daemon.Token.{
  TokenManager, Refreshed, refreshed, not_refreshed, refresh_result, get_token, set_initial_token,
  new_token_manager,
}
use kubelogin_daemon.Ipc.{Status, Request, Response, Message, error_response, refresher_of}
use kubelogin_daemon.Server.{Server, Env, new_config, persist}
use kubelogin_daemon.Server.Managers.{ServerInv, insert-Counted}
use kubelogin_daemon.Server.Admission.{
  Stored, new_entry, set_initial_token-current, Admitted, get_or_create-Admitted,
  admit_stored-Stored,
}
use kubelogin_daemon.Server.Requests.{
  key_error, with_key, put_state, put_manager, persist_refreshed, run_refresh, finish_get_token,
  refresh_for_token, max_token_size, serve_token, handle_get_token, stored, store_with_expiry,
  handle_store_token, handle_begin_login, handle_cancel_login,
}

pub ServerInv-mono :
    {now later : Time} (s : Server) → now ≤ later → ServerInv now s → ServerInv later s
ServerInv-mono s h v = record { counted = v.counted; states = StateInv-mono s.states h v.states }

pub put_state-ServerInv :
    {now : Time} (key : Text) (state : AuthState) (s : Server)
    → 0 < now
    → is_unset state ≡ false
    → ServerInv now s
    → ServerInv now (put_state now key state s)
put_state-ServerInv key state s p h v = record {
  counted = v.counted;
  states = set_state-StateInv key state s.states p h v.states;
}

pub put_manager-ServerInv :
    {now : Time} (key : Text) (m : TokenManager) (s : Server)
    → has key s.managers ≡ true
    → ServerInv now s
    → ServerInv now (put_manager key m s)
put_manager-ServerInv key m s h v = record {
  counted = insert-Counted key m s.managers h v.counted;
  states = v.states;
}

-- A handler leaves the state alone where the key is refused.
pub with_key_both {ℓ} :
    (P : Server × Response → Type ℓ) (key : Text) (s : Server) (handled : Server × Response)
    → ((r : Response) → r.status ≡ Status.error → P (s, r))
    → P handled
    → P (with_key key s handled)
with_key_both P key s handled refused h = elim (Option-cases (key_error key)) [
  | inl e ↦ rw (e, with_key) h
  | inr (r, e) ↦ rw (e, with_key) (refused r (ground arith))
]

module _ (codec : Codec) (net : Network) where
  persist-ServerInv :
      {now : Time} (env : Env) (key id_token refresh_token : Text) (s : Server)
      → ServerInv now s
      → ServerInv now (persist codec env key id_token refresh_token s)
  unfolding persist
  persist-ServerInv env key id_token refresh_token s v = record {
    counted = v.counted;
    states = v.states;
  }

  persist_refreshed-ServerInv :
      {now : Time} (env : Env) (key : Text) (r : Refreshed) (s : Server)
      → ServerInv now s
      → ServerInv now (persist_refreshed codec net env key r s)
  persist_refreshed-ServerInv env key (not_refreshed e) s v = v
  persist_refreshed-ServerInv env key (refreshed t) s v = persist-ServerInv _ key _ _ s v

  pub run_refresh-ServerInv :
      {now : Time} (env : Env) (key : Text) (m : TokenManager) (s : Server)
      → has key s.managers ≡ true
      → ServerInv now s
      → ServerInv now (run_refresh codec net env key m s).0
  unfolding run_refresh
  run_refresh-ServerInv env key m s h v =
      persist_refreshed-ServerInv env key (refresh_result (refresh net) env.later m) _
        (put_manager-ServerInv key _ s h v)

  module _ (env : Env) (started : 0 < env.now) (ordered : env.now ≤ env.later) where
    finish_get_token-ServerInv :
        (key : Text) (r : Server × Refreshed)
        → ServerInv env.now r.0
        → ServerInv env.later (finish_get_token codec net env key r).0
    unfolding finish_get_token
    finish_get_token-ServerInv key (s, refreshed t) v =
        put_state-ServerInv key _ s (omega (arith, started, ordered)) refl
          (ServerInv-mono s ordered v)
    finish_get_token-ServerInv key (s, not_refreshed e) v =
        put_state-ServerInv key _ s (omega (arith, started, ordered)) refl
          (ServerInv-mono s ordered v)

    refresh_for_token-ServerInv :
        (key : Text) (m : TokenManager) (s : Server)
        → has key s.managers ≡ true
        → ServerInv env.now s
        → ServerInv env.later (refresh_for_token codec net env key m s).0
    unfolding refresh_for_token
    refresh_for_token-ServerInv key m s h v = finish_get_token-ServerInv key _ (
        run_refresh-ServerInv env key m _ h
          (put_state-ServerInv key AuthState.refreshing s started refl v))

    pub both_later :
        (b : Bool) (x y : Server × Response)
        → ServerInv env.later x.0
        → ServerInv env.later y.0
        → ServerInv env.later (if b then x else y).0
    both_later b x y v w = if_both (λ (r : Server × Response). ServerInv env.later r.0) b v w

    serve_token-ServerInv :
        (key : Text) (req : Request) (r : Server × Option TokenManager)
        → Admitted codec env.now key (refresher_of req) r
        → ServerInv env.later (serve_token codec net env key req r).0
    unfolding serve_token
    serve_token-ServerInv key req (s, none) a =
        ServerInv-mono _ ordered (put_state-ServerInv key AuthState.needs_login s started refl a)
    serve_token-ServerInv key req (s, some m) (v, at, _) =
        let m' = (get_token env.now m).0 in
        let there : has key s.managers ≡ true = rw (at, has) refl in
        let s' = put_manager key m' s in
        let v' = put_manager-ServerInv key m' s there v in
        let there' : has key s'.managers ≡ true =
          ground (arith, lookup-insert key key m' s.managers, text_eq_refl key) in
        let again = refresh_for_token-ServerInv key m' s' there' v' in
        elim (Option-cases (get_token env.now m).1) [
          | inl c ↦ rw (c, serve_token) again
          | inr (t, c) ↦
              rw (c, serve_token)
                (both_later _ _ _
                  (ServerInv-mono _ ordered
                    (put_state-ServerInv key AuthState.valid s' started refl v'))
                  again)
        ]

    pub get_state-ServerInv :
        (key : Text) (s : Server)
        → ServerInv env.now s
        → ServerInv env.now (record s { states = (get_state env.now env.now key s.states).0 })
    get_state-ServerInv key s v = record {
      counted = v.counted;
      states = get_state-StateInv key s.states v.states;
    }

    pub handle_get_token-ServerInv :
        (req : Request) (s : Server)
        → ServerInv env.now s
        → ServerInv env.later (handle_get_token codec net env req s).0
    unfolding handle_get_token
    handle_get_token-ServerInv req s v =
        let v' = get_state-ServerInv req.cache_key s v in
        with_key_both (λ r. ServerInv env.later r.0) req.cache_key s _
          (λ r e. ServerInv-mono s ordered v)
          (both_later _ _ _ (ServerInv-mono _ ordered v') (
            serve_token-ServerInv req.cache_key req _
              (get_or_create-Admitted codec net env req.cache_key req _ v')))

    stored-ServerInv :
        (req : Request) (expiry : Time) (stored_in : Option Server) (s : Server)
        → Stored codec env.now req.cache_key
            (refresher_of req)
            (new_entry codec env.now req.id_token req.refresh_token expiry)
            stored_in
        → ServerInv env.now s
        → ServerInv env.later (stored codec net env req expiry stored_in s).0
    unfolding stored persist
    stored-ServerInv req expiry none s a v = ServerInv-mono s ordered v
    stored-ServerInv req expiry (some s') s (v', _, _, _, _) v = record {
      counted = v'.counted;
      states =
          complete_login-StateInv req.cache_key s'.states
            (StateInv-mono s'.states ordered v'.states);
    }

    store_with_expiry-ServerInv :
        (req : Request) (expiry : Jwt.Result Time) (s : Server)
        → ServerInv env.now s
        → ServerInv env.later (store_with_expiry codec net env req expiry s).0
    unfolding store_with_expiry
    store_with_expiry-ServerInv req (Jwt.err e) s v = ServerInv-mono s ordered v
    store_with_expiry-ServerInv req (Jwt.ok expiry) s v =
        stored-ServerInv req expiry _ s
          (admit_stored-Stored codec env req.cache_key req
            (set_initial_token env.now req.id_token req.refresh_token expiry
              (new_token_manager env.now (new_config req.cache_key req)))
            req.id_token req.refresh_token expiry s
            (unfold set_initial_token new_token_manager in ground arith)
            (set_initial_token-current codec env.now req.id_token req.refresh_token expiry _) v)
          v

    pub handle_store_token-ServerInv :
        (req : Request) (s : Server)
        → ServerInv env.now s
        → ServerInv env.later (handle_store_token codec net env req s).0
    unfolding handle_store_token
    handle_store_token-ServerInv req s v =
        let same = ServerInv-mono s ordered v in
        let handled =
          store_with_expiry codec net env req (parse_token_expiry net.parse_json req.id_token) s in
        let too_large =
          ltb max_token_size (length req.id_token)
          || ltb max_token_size (length req.refresh_token) in
        let e = error_response Message.token_too_large in
        let by_size =
          both_later too_large (s, e) handled same
            (store_with_expiry-ServerInv req (parse_token_expiry net.parse_json req.id_token) s
              v) in
        with_key_both (λ r. ServerInv env.later r.0) req.cache_key s _ (λ r e. same)
          (both_later (is_empty req.id_token) (s, error_response Message.id_token_required)
            (if too_large then (s, e) else handled) same by_size)

    pub handle_begin_login-ServerInv :
        (req : Request) (s : Server)
        → ServerInv env.now s
        → ServerInv env.later (handle_begin_login codec net env req s).0
    unfolding handle_begin_login
    handle_begin_login-ServerInv req s v =
        let begun : ServerInv env.later
            (record s { states = (begin_login env.now req.cache_key s.states).0 }) =
          record {
            counted = v.counted;
            states =
                StateInv-mono _ ordered
                  (begin_login-StateInv req.cache_key s.states started v.states);
          } in
        with_key_both (λ r. ServerInv env.later r.0) req.cache_key s _
          (λ r e. ServerInv-mono s ordered v) (both_later _ _ _ begun begun)

    pub handle_cancel_login-ServerInv :
        (req : Request) (s : Server)
        → ServerInv env.now s
        → ServerInv env.later (handle_cancel_login codec net env req s).0
    unfolding handle_cancel_login
    handle_cancel_login-ServerInv req s v =
        with_key_both (λ r. ServerInv env.later r.0) req.cache_key s _
          (λ r e. ServerInv-mono s ordered v)
          (record {
            counted = v.counted;
            states =
                StateInv-mono _ ordered (cancel_login-StateInv req.cache_key s.states v.states);
          })
