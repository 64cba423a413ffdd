-- ===== src/Server/Requests/Tokens.antt =====
-- pkg/daemon/server.go: where a token comes from that `get-token` answers with.
use kubelogin_daemon.Prelude.{
  ◌≤◌, ◌≡◌, ◌≢◌, refl, sym, inl, inr, ◌⊎◌, false, not, ◌&&◌, Option, none, some, arith, ltb,
  Option-cases, Bool-cases, if_both,
}
use mathlib.Core.Path.{subst}
use kubelogin_daemon.Text.{Text, text_eq_refl}
use kubelogin_daemon.Assoc.{lookup, lookup-insert}
use kubelogin_daemon.State.{Time, AuthState, set_state, is_login, get_state}
use kubelogin_daemon.Persist.{Codec}
use kubelogin_daemon.Refresher.{Network, OidcRefresher, TokenSet, refresh}
use kubelogin_daemon.Refresher.Exchange.{Obtained}
use kubelogin_daemon.Token.{
  TokenManager, TokenEntry, Refreshed, refreshed, not_refreshed, refresh_result, apply_refresh,
  get_token,
}
use kubelogin_daemon.Token.Refreshing.{refresh_result-Obtained}
use kubelogin_daemon.Ipc.{Request, Response, Status, refresher_of}
use kubelogin_daemon.Server.{Server, Env, persist}
use kubelogin_daemon.State.Entries.{get_state-StateInv}
use kubelogin_daemon.Server.Managers.{ServerInv}
use kubelogin_daemon.Server.Admission.{Admitted, get_or_create-Admitted}
use kubelogin_daemon.Server.Requests.Invariant.{with_key_both}
use kubelogin_daemon.Server.Requests.{
  classify_refresh_error, put_state, put_manager, persist_refreshed, run_refresh, finish_get_token,
  refresh_for_token, serve_token, handle_get_token,
}

abbrev pub set_of : TokenEntry → TokenSet
set_of t = record { id_token = t.id_token; refresh_token = t.refresh_token; expiry = t.expiry }

-- A token that has not expired when the request comes, where no refresh was asked for.
abbrev pub IsCached : Env → Request → TokenEntry → Type 0
IsCached env req t = (env.now ≤ t.expiry) × (req.force_refresh ≡ false)

-- A token that the provider has given during the request, with the configuration of the request.
abbrev pub IsFresh : Network → Env → Request → TokenEntry → Type 0
IsFresh net env req t =
    (t.obtained_at ≡ env.later) × (old : Text) × Obtained net (refresher_of req) old (set_of t)

pub record Serves (net : Network) (env : Env) (req : Request) (s : Server) (r : Response)
    : Type 0 where
  pub manager : TokenManager
  pub entry : TokenEntry
  pub managed : lookup req.cache_key s.managers ≡ some manager
  pub current : manager.current ≡ some entry
  pub token_sent : r.token ≡ entry.id_token
  pub expiry_sent : r.expiry ≡ entry.expiry
  pub is_valid :
      lookup req.cache_key s.states ≡ some (record { state = AuthState.valid; login_started = 0 })
  pub source : IsCached env req entry ⊎ IsFresh net env req entry

abbrev IsServed : Network → Env → Request → Server × Response → Type 0
IsServed net env req (s, r) = r.status ≡ Status.success → Serves net env req s r

classify_fails : (e : Text) → (classify_refresh_error e).status ≢ Status.success
unfolding classify_refresh_error
classify_fails e h = ground arith

valid_state :
    (now : Time) (key : Text) (s : Server)
    → lookup key (put_state now key AuthState.valid s).states
      ≡ some (record { state = AuthState.valid; login_started = 0 })
unfolding set_state
valid_state now key s = ground (
  arith,
  lookup-insert key key (record { state = AuthState.valid; login_started = 0 }) s.states,
  text_eq_refl key,
)

lookup-put_manager :
    (key : Text) (m : TokenManager) (s : Server)
    → lookup key (put_manager key m s).managers ≡ some m
lookup-put_manager key m s = ground (arith, lookup-insert key key m s.managers, text_eq_refl key)

apply_refresh-current :
    (now : Time) (t : TokenEntry) (m : TokenManager)
    → (apply_refresh now (refreshed t) m).current ≡ some t
unfolding apply_refresh
apply_refresh-current now t m = ground arith

module _ (codec : Codec) (net : Network) (env : Env) (req : Request) where
  finish-IsServed :
      (m : TokenManager) (s : Server) (r : Refreshed)
      → refresh_result (refresh net) env.later m ≡ r
      → m.refresher ≡ refresher_of req
      → let key = req.cache_key in
        IsServed net env req (
          finish_get_token codec net env key (
            persist_refreshed codec net env key r (put_manager key (apply_refresh env.later r m) s),
            r,
          ))
  unfolding finish_get_token persist
  finish-IsServed m s (not_refreshed e) h same ok = absurd (classify_fails e.text ok)
  finish-IsServed m s (refreshed t) h same ok =
      let (old, at, some_old, obtained, rotated, when) =
        refresh_result-Obtained net env.later m t h in
      record {
        manager = apply_refresh env.later (refreshed t) m;
        entry = t;
        managed = lookup-put_manager req.cache_key _ s;
        current = apply_refresh-current env.later t m;
        token_sent = refl;
        expiry_sent = refl;
        is_valid = valid_state env.later req.cache_key s;
        source = inr (
          when,
          old.refresh_token,
          subst (λ (x : OidcRefresher). Obtained net x old.refresh_token (set_of t)) same obtained,
        );
      }

  refresh_for_token-IsServed :
      (m : TokenManager) (s : Server)
      → m.refresher ≡ refresher_of req
      → IsServed net env req (refresh_for_token codec net env req.cache_key m s)
  unfolding refresh_for_token run_refresh
  refresh_for_token-IsServed m s same =
      finish-IsServed m (put_state env.now req.cache_key AuthState.refreshing s) _ refl same

  get_token-result :
      (m : TokenManager) (id_token : Text) (expiry : Time)
      → (get_token env.now m).1 ≡ some (id_token, expiry)
      → (t : TokenEntry) × ((get_token env.now m).0.current ≡ some t)
        × (t.id_token ≡ id_token)
        × (t.expiry ≡ expiry)
  unfolding get_token
  get_token-result m id_token expiry h = elim (Option-cases m.current) [
    | inl c ↦ absurd (ground arith)
    | inr (t, c) ↦ (t, ground arith, ground arith, ground arith)
  ]

  get_token-refresher : (m : TokenManager) → (get_token env.now m).0.refresher ≡ m.refresher
  unfolding get_token
  get_token-refresher m = ground arith

  serve_token-IsServed :
      (found : Server × Option TokenManager)
      → Admitted codec env.now req.cache_key (refresher_of req) found
      → IsServed net env req (serve_token codec net env req.cache_key req found)
  unfolding serve_token
  serve_token-IsServed (s, none) a =
      λ (ok : Status.needs_auth ≡ Status.success). absurd (ground arith)
  serve_token-IsServed (s, some m) (v, at, same) =
      let m' = (get_token env.now m).0 in
      let s' = put_manager req.cache_key m' s in
      let again = refresh_for_token-IsServed m' s' (ground (arith, get_token-refresher m)) in
      elim (Option-cases (get_token env.now m).1) [
        | inl c ↦ rw (c, serve_token) again
        | inr ((id_token, expiry), c) ↦
            let (t, now_at, same_token, same_expiry) = get_token-result m id_token expiry c in
            elim (Bool-cases (not (ltb expiry env.now) && not req.force_refresh)) [
              | inr e ↦ rw (c, serve_token, e) again
              | inl e ↦
                  rw (c, serve_token, e)
                    (λ ok. record {
                      manager = m';
                      entry = t;
                      managed = lookup-put_manager req.cache_key m' s;
                      current = now_at;
                      token_sent = sym same_token;
                      expiry_sent = sym same_expiry;
                      is_valid = valid_state env.now req.cache_key s';
                      source = inl (ground arith, ground arith);
                    })
            ]
      ]

  handle_get_token-IsServed :
      (s : Server)
      → ServerInv env.now s
      → IsServed net env req (handle_get_token codec net env req s)
  unfolding handle_get_token
  handle_get_token-IsServed s v =
      let key = req.cache_key in
      let read : Server = record s { states = (get_state env.now env.now key s.states).0 } in
      let served = serve_token-IsServed _ (
        get_or_create-Admitted codec net env key req read
          (record { counted = v.counted; states = get_state-StateInv key s.states v.states })) in
      with_key_both (λ x. IsServed net env req x) key s _ (λ r e ok. absurd (ground arith))
        (if_both (λ x. IsServed net env req x)
          (is_login (get_state env.now env.now key s.states).1.0)
          (λ (ok : Status.login_in_progress ≡ Status.success). absurd (ground arith)) served)

  -- Where `get-token` answers with success, the token and expiry that it sends are those of the
  -- manager of the key, whose state is VALID. Either the token has not expired and no refresh was
  -- asked for, or the provider has given it during this very request, for the configuration that
  -- the request carries.
  pub handle_get_token-Serves :
      (s : Server)
      → ServerInv env.now s
      → (handle_get_token codec net env req s).1.status ≡ Status.success
      → let (s', r) = handle_get_token codec net env req s in Serves net env req s' r
  handle_get_token-Serves s v ok = handle_get_token-IsServed s v ok
