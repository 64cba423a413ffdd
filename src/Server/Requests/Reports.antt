-- ===== src/Server/Requests/Reports.antt =====
-- pkg/daemon/server.go: the invariant of the server, over `check`, `refresh` and `health`.
use kubelogin_daemon.Prelude.{
  ◌-◌, ◌≤◌, ◌<◌, ◌≡◌, refl, inl, inr, true, Option, none, some, ◌∷◌, arith, ltb, Option-cases,
  List-cases,
}
use kubelogin_daemon.Text.{Text, text_eq_refl}
use kubelogin_daemon.Assoc.{lookup, has, lookup-insert}
use kubelogin_daemon.State.{Time, AuthState}
use kubelogin_daemon.State.Entries.{StateInv-mono}
use kubelogin_daemon.Persist.{Codec, Loaded, loaded, load_failed, load_persisted_token}
use kubelogin_daemon.Refresher.{Network, OidcRefresher}
use kubelogin_daemon.Token.{TokenManager, Refreshed, refreshed, not_refreshed, get_token}
use kubelogin_daemon.Ipc.{Request, Response, refresher_of}
use kubelogin_daemon.Server.{Server, Env}
use kubelogin_daemon.Server.Managers.{Counted, ServerInv}
use kubelogin_daemon.Server.Admission.{Admitted, get_or_create-Admitted}
use kubelogin_daemon.Server.Requests.{put_state, put_manager}
use kubelogin_daemon.Server.Requests.{
  check_manager, check_in_state, check_state, check_disk, handle_check, finish_refresh,
  force_refresh, refresh_manager, handle_refresh, handle_health, thirty_minutes,
}
use kubelogin_daemon.Server.Requests.Invariant.{
  ServerInv-mono, put_state-ServerInv, put_manager-ServerInv, with_key_both, run_refresh-ServerInv,
  both_later, get_state-ServerInv,
}

module _ (codec : Codec) (net : Network) (env : Env) (started : 0 < env.now)
    (ordered : env.now ≤ env.later) where
  need_login :
      (key : Text) (s : Server)
      → ServerInv env.now s
      → ServerInv env.later (put_state env.now key AuthState.needs_login s)
  need_login key s v = ServerInv-mono _ ordered (put_state-ServerInv key _ s started refl v)

  check_manager-ServerInv :
      (key : Text) (r : Response) (tm : Option TokenManager) (s : Server)
      → (tm ≡ lookup key s.managers)
      → ServerInv env.now s
      → ServerInv env.later (check_manager codec net env key r tm s).0
  unfolding check_manager
  check_manager-ServerInv key r none s e v = need_login key s v
  check_manager-ServerInv key r (some m) s e v =
      let there : has key s.managers ≡ true = rw⁻¹ (e, has) refl in
      let v' = put_manager-ServerInv key (get_token env.now m).0 s there v in
      elim (Option-cases (get_token env.now m).1) [
        | inl c ↦ rw (c, check_manager) (need_login key _ v')
        | inr (t, c) ↦
            rw (c, check_manager)
              (both_later codec net env started ordered _ _ _ (ServerInv-mono _ ordered v')
                (need_login key _ v'))
      ]

  check_in_state-ServerInv :
      (key : Text) (state : AuthState) (since : Time) (r : Response) (s : Server)
      → ServerInv env.now s
      → ServerInv env.later (check_in_state codec net env key state since r s).0
  unfolding check_in_state
  check_in_state-ServerInv key AuthState.unset since r s v = ServerInv-mono s ordered v
  check_in_state-ServerInv key AuthState.valid since r s v =
      check_manager-ServerInv key r (lookup key s.managers) s refl v
  check_in_state-ServerInv key AuthState.needs_login since r s v = ServerInv-mono s ordered v
  check_in_state-ServerInv key AuthState.login_in_progress since r s v = ServerInv-mono s ordered v
  check_in_state-ServerInv key AuthState.refreshing since r s v = ServerInv-mono s ordered v

  check_state-ServerInv :
      (key : Text) (s : Server)
      → ServerInv env.now s
      → ServerInv env.later (check_state codec net env key s).0
  unfolding check_state
  check_state-ServerInv key s v =
      check_in_state-ServerInv key _ _ _ _
        (get_state-ServerInv codec net env started ordered key s v)

  check_disk-ServerInv :
      (key : Text) (l : Loaded) (s : Server)
      → ServerInv env.now s
      → ServerInv env.later (check_disk codec net env key l s).0
  unfolding check_disk
  check_disk-ServerInv key (load_failed e) s v = check_state-ServerInv key s v
  check_disk-ServerInv key (loaded id_token refresh_token) s v =
      let same = ServerInv-mono s ordered v in
      let checked = check_state-ServerInv key s v in ground arith

  pub handle_check-ServerInv :
      (req : Request) (s : Server)
      → ServerInv env.now s
      → ServerInv env.later (handle_check codec net env req s).0
  unfolding handle_check
  handle_check-ServerInv req s v =
      let same = ServerInv-mono s ordered v in
      let checked = check_state-ServerInv req.cache_key s v in
      let (dir, found) = load_persisted_token codec env.read_faults req.cache_key s.dir in
      let on_disk =
        check_disk-ServerInv req.cache_key found (record s { dir = dir })
          (record { counted = v.counted; states = v.states }) in
      ground arith

  finish_refresh-ServerInv :
      (key : Text) (r : Server × Refreshed)
      → ServerInv env.now r.0
      → ServerInv env.later (finish_refresh codec net env key r).0
  unfolding finish_refresh
  finish_refresh-ServerInv key (s, refreshed t) v =
      put_state-ServerInv key _ s (omega (arith, started, ordered)) refl
        (ServerInv-mono s ordered v)
  finish_refresh-ServerInv key (s, not_refreshed e) v =
      put_state-ServerInv key _ s (omega (arith, started, ordered)) refl
        (ServerInv-mono s ordered v)

  refresh_manager-ServerInv :
      (key : Text) (r : OidcRefresher) (found : Server × Option TokenManager)
      → ServerInv env.now found.0
      → ((m : TokenManager) → found.1 ≡ some m → has key found.0.managers ≡ true)
      → ServerInv env.later (refresh_manager codec net env key found).0
  unfolding refresh_manager force_refresh
  refresh_manager-ServerInv key r (s, none) v there = ServerInv-mono s ordered v
  refresh_manager-ServerInv key r (s, some m) v there =
      let m' = (get_token env.now m).0 in
      let s' = put_manager key m' s in
      let v' = put_manager-ServerInv key m' s (there m refl) v in
      let there' : has key s'.managers ≡ true =
        ground (arith, lookup-insert key key m' s.managers, text_eq_refl key) in
      let again = finish_refresh-ServerInv key _ (
        run_refresh-ServerInv codec net env key m' (put_state env.now key AuthState.refreshing s')
          there' (put_state-ServerInv key AuthState.refreshing s' started refl v')) in
      elim (Option-cases (get_token env.now m).1) [
        | inl c ↦ rw (c, refresh_manager) again
        | inr ((id_token, expiry), c) ↦
            rw (c, refresh_manager)
              (both_later codec net env started ordered (ltb thirty_minutes (expiry - env.now)) _ _
                (ServerInv-mono _ ordered v') again)
      ]

  Admitted-has :
      (key : Text) (r : OidcRefresher) (found : Server × Option TokenManager)
      → Admitted codec env.now key r found
      → ServerInv env.now found.0
        × ((m : TokenManager) → found.1 ≡ some m → has key found.0.managers ≡ true)
  unfolding lookup
  Admitted-has key r (s, none) a = (a, λ m e. ground arith)
  Admitted-has key r (s, some m) (v, at, same) = (v, λ x e. rw (at, has) refl)

  pub handle_refresh-ServerInv :
      (req : Request) (s : Server)
      → ServerInv env.now s
      → ServerInv env.later (handle_refresh codec net env req s).0
  unfolding handle_refresh
  handle_refresh-ServerInv req s v =
      let r = refresher_of req in
      let (v', there) =
        Admitted-has req.cache_key r _
          (get_or_create-Admitted codec net env req.cache_key req s v) in
      with_key_both (λ x. ServerInv env.later x.0) req.cache_key s _
        (λ x e. ServerInv-mono s ordered v)
        (elim (Option-cases (lookup req.cache_key s.managers)) [
          | inl e ↦ rw e (refresh_manager-ServerInv req.cache_key r _ v' there)
          | inr (m, e) ↦
              rw e
                (refresh_manager-ServerInv req.cache_key r (s, some m) v (λ x a. rw (e, has) refl))
        ])

  pub handle_health-ServerInv :
      (s : Server) → ServerInv env.now s → ServerInv env.later (handle_health codec net env s).0
  unfolding handle_health
  handle_health-ServerInv s v = elim (List-cases s.managers) [
    | inl e ↦ rw (e, handle_health) (ServerInv-mono s ordered v)
    | inr ((k, m), ms, e) ↦
        let c : Counted ((k, m) ∷ ms) s.manager_count = rw e at v.counted in
        rw (e, handle_health)
          (record {
            counted = record { unique = c.unique; exact = c.exact; capped = c.capped };
            states = StateInv-mono s.states ordered v.states;
          })
  ]
