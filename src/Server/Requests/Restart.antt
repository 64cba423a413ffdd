-- ===== src/Server/Requests/Restart.antt =====
-- pkg/daemon/server.go: a token that was stored outlives the daemon.
use kubelogin_daemon.Prelude.{
  ℕ, ◌≤◌, ◌<◌, ◌≡◌, refl, sym, inl, inr, true, false, not, ◌&&◌, ◌||◌, Option, none, some, arith,
  ltb, length, Bool-cases,
}
use mathlib.Core.Path.{subst}
use kubelogin_daemon.Text.{Text, is_empty}
use kubelogin_daemon.Assoc.{lookup}
use kubelogin_daemon.State.{Time, get_state}
use kubelogin_daemon.Persist.Files.{Fs}
use kubelogin_daemon.Persist.{Codec, loaded, load_persisted_token}
use kubelogin_daemon.Persist.Loading.{no_read_faults}
use kubelogin_daemon.Jwt
use kubelogin_daemon.Jwt.{parse_token_expiry}
use kubelogin_daemon.Refresher.{Network}
use kubelogin_daemon.Token.{TokenManager, set_initial_token, new_token_manager}
use kubelogin_daemon.Ipc.{Request, Response, Status}
use kubelogin_daemon.Server.{
  Server, Env, new_server, get_or_create_token_manager, slow_path, admit_loaded, manager_from_disk,
  admit_stored, store_new, max_token_managers, new_config,
}
use kubelogin_daemon.Server.Admission.{new_entry, set_initial_token-current}
use kubelogin_daemon.Server.Requests.{
  with_key, serve_token, handle_get_token, stored, store_with_expiry, handle_store_token,
  max_token_size,
}
use kubelogin_daemon.Server.Requests.Sequences.{
  IsAccepted, handle_store_token-IsAccepted, get_token_at,
}
use kubelogin_daemon.Server.Requests.Saving.{CanSave, persist-loads}

module _ (codec : Codec) (net : Network) where
  admit_stored-dir :
      (env : Env) (key : Text) (req : Request) (tm : TokenManager) (id_token refresh_token : Text)
      (expiry : Time) (s s' : Server)
      → s.manager_count < max_token_managers
      → admit_stored codec env key req tm id_token refresh_token expiry s ≡ some s'
      → s'.dir ≡ s.dir
  unfolding admit_stored store_new
  admit_stored-dir env key req tm id_token refresh_token expiry s s' room h = ground arith

  -- What is on disk once a token has been stored, and its expiry.
  abbrev IsOnDisk : Env → Request → Server × Response → Type 0
  IsOnDisk env req (s, r) =
      r.status ≡ Status.success
      → (load_persisted_token codec no_read_faults req.cache_key s.dir
          ≡ (s.dir, loaded req.id_token req.refresh_token))
        × (parse_token_expiry net.parse_json req.id_token ≡ Jwt.ok r.expiry)
        × (is_empty req.id_token ≡ false)

  stored-IsOnDisk :
      (env : Env) (req : Request) (expiry : Time) (o : Option Server) (s : Server)
      → ((s' : Server) → o ≡ some s' → s'.dir ≡ s.dir)
      → CanSave codec env req.cache_key req.id_token req.refresh_token s.dir
      → parse_token_expiry net.parse_json req.id_token ≡ Jwt.ok expiry
      → is_empty req.id_token ≡ false
      → IsOnDisk env req (stored codec net env req expiry o s)
  unfolding stored
  stored-IsOnDisk env req expiry none s same can e n =
      λ (ok : Status.error ≡ Status.success). absurd (ground arith)
  stored-IsOnDisk env req expiry (some s') s same can e n = λ ok. (
    persist-loads codec env req.cache_key req.id_token req.refresh_token s' (
        subst (λ (d : Fs). CanSave codec env req.cache_key req.id_token req.refresh_token d)
          (sym (same s' refl)) can),
    e,
    n,
  )

  store_with_expiry-IsOnDisk :
      (env : Env) (req : Request) (expiry : Jwt.Result Time) (s : Server)
      → s.manager_count < max_token_managers
      → CanSave codec env req.cache_key req.id_token req.refresh_token s.dir
      → parse_token_expiry net.parse_json req.id_token ≡ expiry
      → is_empty req.id_token ≡ false
      → IsOnDisk env req (store_with_expiry codec net env req expiry s)
  unfolding store_with_expiry
  store_with_expiry-IsOnDisk env req (Jwt.err x) s room can e n =
      λ (ok : Status.error ≡ Status.success). absurd (ground arith)
  store_with_expiry-IsOnDisk env req (Jwt.ok expiry) s room can e n =
      stored-IsOnDisk env req expiry _ s
        (λ s' h.
          admit_stored-dir env req.cache_key req
            (set_initial_token env.now req.id_token req.refresh_token expiry
              (new_token_manager env.now (new_config req.cache_key req)))
            req.id_token req.refresh_token expiry s s' room h)
        can e n

  handle_store_token-IsOnDisk :
      (env : Env) (req : Request) (s : Server)
      → s.manager_count < max_token_managers
      → IsAccepted req.cache_key
      → CanSave codec env req.cache_key req.id_token req.refresh_token s.dir
      → IsOnDisk env req (handle_store_token codec net env req s)
  unfolding handle_store_token
  handle_store_token-IsOnDisk env req s room k can = elim (Bool-cases (is_empty req.id_token)) [
    | inl e ↦
        rw (k, handle_store_token, with_key, e)
          (λ (ok : Status.error ≡ Status.success). absurd (ground arith))
    | inr e ↦
        elim (Bool-cases (
          ltb max_token_size (length req.id_token)
          || ltb max_token_size (length req.refresh_token))) [
            | inl l ↦
                rw (k, handle_store_token, with_key, e, l)
                  (λ (ok : Status.error ≡ Status.success). absurd (ground arith))
            | inr l ↦
                let here =
                  store_with_expiry-IsOnDisk env req
                    (parse_token_expiry net.parse_json req.id_token) s room can refl e in
                rw (k, handle_store_token, with_key, e, l)
                  (λ ok. (let (on_disk, parsed, _) = here ok in (on_disk, parsed, refl)))
          ]
  ]

  from_disk :
      (env : Env) (req : Request) (started idle_timeout idle_check_tick : Time) (dir : Fs) (pid : ℕ)
      (id_token refresh_token : Text) (expiry : Time)
      → load_persisted_token codec env.read_faults req.cache_key dir
        ≡ (dir, loaded id_token refresh_token)
      → parse_token_expiry net.parse_json id_token ≡ Jwt.ok expiry
      → is_empty id_token ≡ false
      → is_empty refresh_token ≡ false
      → (get_or_create_token_manager codec net env req.cache_key req
          (new_server started idle_timeout idle_check_tick dir pid)).1
        ≡ some (
            set_initial_token env.now id_token refresh_token expiry
              (new_token_manager env.now (new_config req.cache_key req)))
  unfolding get_or_create_token_manager slow_path admit_loaded manager_from_disk store_new
      new_server lookup
  from_disk env req started idle_timeout idle_check_tick dir pid id_token refresh_token expiry l e n
        r =
      rw (l, slow_path, r, n, e) refl

  answer_from_disk :
      (env : Env) (req : Request) (started idle_timeout idle_check_tick : Time) (dir : Fs) (pid : ℕ)
      (id_token refresh_token : Text) (expiry : Time)
      → IsAccepted req.cache_key
      → load_persisted_token codec env.read_faults req.cache_key dir
        ≡ (dir, loaded id_token refresh_token)
      → parse_token_expiry net.parse_json id_token ≡ Jwt.ok expiry
      → is_empty id_token ≡ false
      → is_empty refresh_token ≡ false
      → env.now ≤ expiry
      → req.force_refresh ≡ false
      → let r =
          (handle_get_token codec net env req
            (new_server started idle_timeout idle_check_tick dir pid)).1 in
        (r.status ≡ Status.success) × (r.token ≡ id_token) × (r.expiry ≡ expiry)
  unfolding handle_get_token serve_token get_state lookup new_server
  answer_from_disk env req started idle_timeout idle_check_tick dir pid id_token refresh_token
        expiry k l e n r fresh force =
      let made =
        from_disk env req started idle_timeout idle_check_tick dir pid id_token refresh_token expiry
          l e n r in
      let token =
        get_token_at env.now
          (set_initial_token env.now id_token refresh_token expiry
            (new_token_manager env.now (new_config req.cache_key req)))
          (new_entry codec env.now id_token refresh_token expiry)
          (set_initial_token-current codec env.now id_token refresh_token expiry _) in
      let good : not (ltb expiry env.now) && not req.force_refresh ≡ true = ground arith in
      rw (k, handle_get_token, with_key, made, serve_token, token, good) (refl, refl, refl)

  -- A token that was stored, with a refresh token, in a file that could be written, without an
  -- eviction: a daemon that is started afterwards on the same directory answers with it from disk,
  -- with the same expiry and up to it, where the file can be read and no refresh is asked for.
  pub store_restart_get_token :
      (before after : Env) (req next : Request) (s : Server)
      (started idle_timeout idle_check_tick : Time) (pid : ℕ)
      → s.manager_count < max_token_managers
      → CanSave codec before req.cache_key req.id_token req.refresh_token s.dir
      → is_empty req.refresh_token ≡ false
      → (handle_store_token codec net before req s).1.status ≡ Status.success
      → after.read_faults ≡ no_read_faults
      → next.cache_key ≡ req.cache_key
      → next.force_refresh ≡ false
      → after.now ≤ (handle_store_token codec net before req s).1.expiry
      → let (s', answer) = handle_store_token codec net before req s in
        let s'' = new_server started idle_timeout idle_check_tick s'.dir pid in
        let r = (handle_get_token codec net after next s'').1 in
        (r.status ≡ Status.success) × (r.token ≡ req.id_token) × (r.expiry ≡ answer.expiry)
  store_restart_get_token before after req next s started idle_timeout idle_check_tick pid room can
        n ok reads same force fresh =
      let k = handle_store_token-IsAccepted codec net before req s ok in
      let (on_disk, parsed, some_token) = handle_store_token-IsOnDisk before req s room k can ok in
      answer_from_disk after next started idle_timeout idle_check_tick
        (handle_store_token codec net before req s).0.dir pid req.id_token req.refresh_token
        (handle_store_token codec net before req s).1.expiry (rw same k) (rw (reads, same) on_disk)
        parsed some_token n fresh force
