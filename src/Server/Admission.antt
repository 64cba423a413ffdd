-- ===== src/Server/Admission.antt =====
-- pkg/daemon/server.go: what the map has for a key once a manager is admitted.
use kubelogin_daemon.Prelude.{
  ◌≤◌, ◌<◌, ◌≡◌, refl, inl, inr, Bool, true, false, not, ◌&&◌, Option, none, some, arith, leb,
  if◌then◌else◌, Option-cases, Bool-cases,
}
use kubelogin_daemon.Text.{Text, text_eq_refl, is_empty}
use kubelogin_daemon.Assoc.{lookup, insert, has, lookup-insert}
use kubelogin_daemon.State.{Time}
use kubelogin_daemon.Persist.Files.{Fs}
use kubelogin_daemon.Persist.{Codec, Loaded, loaded, load_failed, load_persisted_token}
use kubelogin_daemon.Refresher.{Network, OidcRefresher}
use kubelogin_daemon.Token.{
  TokenManager, TokenEntry, set_refresher, set_initial_token, new_token_manager,
}
use kubelogin_daemon.Ipc.{Request, refresher_of}
use kubelogin_daemon.Server.{
  Server, Env, max_token_managers, evict_oldest_manager_locked, store_new, admit_loaded, slow_path,
  get_or_create_token_manager, admit_stored, manager_from_disk,
}
use kubelogin_daemon.Server.Managers.{
  ServerInv, insert-Counted, insert_new-Counted, with_room-HasRoom, evict-HasRoom,
}

module _ (codec : Codec) where
  -- What a server has for a key after it has been admitted.
  abbrev pub Admitted : Time → Text → OidcRefresher → Server × Option TokenManager → Type 0
  Admitted now key r (s, none) = ServerInv now s
  Admitted now key r (s, some m) =
      ServerInv now s × (lookup key s.managers ≡ some m) × (m.refresher ≡ r)

  admit_with_room :
      {now : Time} (key : Text) (r : OidcRefresher) (tm : TokenManager) (s : Server)
      → tm.refresher ≡ r
      → s.manager_count < max_token_managers
      → ServerInv now s
      → Admitted now key r (elim (lookup key s.managers) [
        | none ↦ (store_new codec key tm s, some tm)
        | some m ↦ (
          record s { managers = insert key (set_refresher r m) s.managers },
          some (set_refresher r m),
        )
      ])
  unfolding store_new set_refresher
  admit_with_room key r tm s same room v = elim (Option-cases (lookup key s.managers)) [
    | inl e ↦
        let at = lookup-insert key key tm s.managers in
        let new = text_eq_refl key in
        rw e (
          record {
            counted = insert_new-Counted key tm s.managers e room v.counted;
            states = v.states;
          },
          ground arith,
          same,
        )
    | inr (m, e) ↦
        let at = lookup-insert key key (set_refresher r m) s.managers in
        let new = text_eq_refl key in
        rw e (
          record {
            counted =
                insert-Counted key (set_refresher r m) s.managers (rw (e, has) refl) v.counted;
            states = v.states;
          },
          ground arith,
          refl,
        )
  ]

  -- Of a manager that has its configuration from the request: the map has it, or the one that was
  -- there with this configuration.
  admit_loaded-Admitted :
      {now : Time} (env : Env) (key : Text) (req : Request) (tm : TokenManager) (s : Server)
      → tm.refresher ≡ refresher_of req
      → ServerInv now s
      → Admitted now key (refresher_of req) (admit_loaded codec env key req tm s)
  unfolding admit_loaded
  admit_loaded-Admitted env key req tm s same v =
      let (ok, room, v') =
        with_room-HasRoom codec env s (leb max_token_managers s.manager_count) (λ e. ground arith)
          (λ e. ground arith) v in
      rw ok (admit_with_room key (refresher_of req) tm _ same room v')

  manager_from_disk-refresher :
      (net : Network) (env : Env) (key : Text) (req : Request) (id_token refresh_token : Text)
      → (manager_from_disk codec net env key req id_token refresh_token).refresher
        ≡ refresher_of req
  unfolding manager_from_disk set_initial_token new_token_manager
  manager_from_disk-refresher net env key req id_token refresh_token = ground arith

  slow_path-Admitted :
      {now : Time} (net : Network) (env : Env) (key : Text) (req : Request) (l : Fs × Loaded)
      (s : Server)
      → ServerInv now s
      → Admitted now key (refresher_of req) (slow_path codec net env key req l s)
  unfolding slow_path
  slow_path-Admitted net env key req (dir, load_failed e) s v = record {
    counted = v.counted;
    states = v.states;
  }
  slow_path-Admitted net env key req (dir, loaded id_token refresh_token) s v =
      let here =
        admit_loaded-Admitted env key req
          (manager_from_disk codec net env key req id_token refresh_token) (record s { dir = dir })
          (manager_from_disk-refresher net env key req id_token refresh_token)
          (record { counted = v.counted; states = v.states }) in
      elim (Bool-cases (is_empty refresh_token)) [
        | inl e ↦ rw e (record { counted = v.counted; states = v.states })
        | inr e ↦ rw e here
      ]

  -- `getOrCreateTokenManager` keeps the server sound. A manager that it returns is the one that the
  -- map then has for the key, and it has the configuration of the request.
  pub get_or_create-Admitted :
      {now : Time} (net : Network) (env : Env) (key : Text) (req : Request) (s : Server)
      → ServerInv now s
      → Admitted now key (refresher_of req) (get_or_create_token_manager codec net env key req s)
  unfolding get_or_create_token_manager
  get_or_create-Admitted net env key req s v = elim (Option-cases (lookup key s.managers)) [
    | inl e ↦
        rw (e, get_or_create_token_manager)
          (slow_path-Admitted net env key req (load_persisted_token codec env.read_faults key s.dir)
            s v)
    | inr (m, e) ↦
        let m' = set_refresher (refresher_of req) m in
        let at = lookup-insert key key m' s.managers in
        let new = text_eq_refl key in
        rw (e, get_or_create_token_manager)
          (
            record {
              counted = insert-Counted key m' s.managers (rw (e, has) refl) v.counted;
              states = v.states;
            },
            ground arith,
            unfold set_refresher in refl,
          )
  ]

  -- What `handleStoreToken` leaves for a key: a manager with the tokens and the configuration.
  abbrev pub Stored : Time → Text → OidcRefresher → TokenEntry → Option Server → Type 0
  Stored now key r entry none = Unit
  Stored now key r entry (some s) =
      ServerInv now s
      × (m : TokenManager) × (lookup key s.managers ≡ some m)
      × (m.current ≡ some entry)
      × (m.refresher ≡ r)

  abbrev pub new_entry : Time → Text → Text → Time → TokenEntry
  new_entry now id_token refresh_token expiry = record {
    id_token = id_token;
    refresh_token = refresh_token;
    expiry = expiry;
    obtained_at = now;
  }

  pub set_initial_token-current :
      (now : Time) (id_token refresh_token : Text) (expiry : Time) (m : TokenManager)
      → (set_initial_token now id_token refresh_token expiry m).current
        ≡ some (new_entry now id_token refresh_token expiry)
  unfolding set_initial_token
  set_initial_token-current now id_token refresh_token expiry m = ground arith

  store_with_room :
      {now : Time} (env : Env) (key : Text) (req : Request) (tm : TokenManager)
      (id_token refresh_token : Text) (expiry : Time) (s : Server)
      → tm.refresher ≡ refresher_of req
      → tm.current ≡ some (new_entry env.now id_token refresh_token expiry)
      → (lookup key s.managers ≡ none → s.manager_count < max_token_managers)
      → ServerInv now s
      → Stored now key
          (refresher_of req)
          (new_entry env.now id_token refresh_token expiry)
          (elim (lookup key s.managers) [
            | none ↦ some (store_new codec key tm s)
            | some m ↦ some (record s {
              managers =
                  insert key
                    (set_refresher
                      (refresher_of req)
                      (set_initial_token env.now id_token refresh_token expiry m))
                    s.managers;
            })
          ])
  unfolding store_new
  store_with_room env key req tm id_token refresh_token expiry s same new room v =
      elim (Option-cases (lookup key s.managers)) [
        | inl e ↦
            let at = lookup-insert key key tm s.managers in
            let self = text_eq_refl key in
            rw e (
              record {
                counted = insert_new-Counted key tm s.managers e (room e) v.counted;
                states = v.states;
              },
              tm,
              ground arith,
              new,
              same,
            )
        | inr (m, e) ↦
            let m' =
              set_refresher (refresher_of req)
                (set_initial_token env.now id_token refresh_token expiry m) in
            let at = lookup-insert key key m' s.managers in
            let self = text_eq_refl key in
            rw e (
              record {
                counted = insert-Counted key m' s.managers (rw (e, has) refl) v.counted;
                states = v.states;
              },
              m',
              ground arith,
              unfold set_refresher in
                  set_initial_token-current env.now id_token refresh_token expiry m,
              unfold set_refresher in refl,
            )
      ]

  store_after_room :
      {now : Time} (env : Env) (key : Text) (req : Request) (tm : TokenManager)
      (id_token refresh_token : Text) (expiry : Time) (s : Server) (full : Bool)
      → tm.refresher ≡ refresher_of req
      → tm.current ≡ some (new_entry env.now id_token refresh_token expiry)
      → (full ≡ false → lookup key s.managers ≡ none → s.manager_count < max_token_managers)
      → (full ≡ true → max_token_managers ≤ s.manager_count)
      → ServerInv now s
      → Stored now key (refresher_of req) (new_entry env.now id_token refresh_token expiry) (
          let (s', made_room) =
            if full then evict_oldest_manager_locked codec env s else (s, true) in
          if not made_room then none else elim (lookup key s'.managers) [
            | none ↦ some (store_new codec key tm s')
            | some m ↦
                let m' =
                  set_refresher
                    (refresher_of req)
                    (set_initial_token env.now id_token refresh_token expiry m) in
                some (record s' { managers = insert key m' s'.managers })
          ])
  store_after_room env key req tm id_token refresh_token expiry s true same new l h v =
      let full = h refl in
      let (ok, room, v') = evict-HasRoom codec env s v (omega (arith, full)) in
      rw ok (store_with_room env key req tm id_token refresh_token expiry _ same new (λ a. room) v')
  store_after_room env key req tm id_token refresh_token expiry s false same new l h v =
      store_with_room env key req tm id_token refresh_token expiry s same new (l refl) v

  -- `handleStoreToken` puts a manager into the map, evicting one at the cap.
  pub admit_stored-Stored :
      {now : Time} (env : Env) (key : Text) (req : Request) (tm : TokenManager)
      (id_token refresh_token : Text) (expiry : Time) (s : Server)
      → tm.refresher ≡ refresher_of req
      → tm.current ≡ some (new_entry env.now id_token refresh_token expiry)
      → ServerInv now s
      → Stored now key
          (refresher_of req)
          (new_entry env.now id_token refresh_token expiry)
          (admit_stored codec env key req tm id_token refresh_token expiry s)
  unfolding admit_stored
  admit_stored-Stored env key req tm id_token refresh_token expiry s same new v =
      store_after_room env key req tm id_token refresh_token expiry s
        (not (has key s.managers) && leb max_token_managers s.manager_count) same new
        (λ e a. ground arith) (λ e. ground arith) v
