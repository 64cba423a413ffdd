-- ===== src/Server/Requests.antt =====
-- pkg/daemon/server.go: `handleConnection`, and the handlers of the commands. A handler returns the
-- new state and the response that it writes.
pub mod Invariant
pub mod Reports
pub mod Tokens
pub mod Classify
pub mod Sequences
pub mod Saving
pub mod Restart
pub mod Ready
pub mod Denials
use kubelogin_daemon.Prelude.{
  ℕ, ◌+◌, ◌-◌, ◌*◌, ◌/◌, ◌^◌, ◌≡◌, Bool, true, false, not, ◌&&◌, ◌||◌, Option, none, some, List, [],
  ◌∷◌, ltb, leb, ◌==◌, length, if◌then◌else◌,
}
use kubelogin_daemon.Text.{Text, codes, text_eq, is_empty, contains}
use kubelogin_daemon.Assoc.{Assoc, lookup, insert, has}
use kubelogin_daemon.State.{
  Time, AuthState, get_state, set_state, begin_login, cancel_login, complete_login, is_login,
}
use kubelogin_daemon.Persist.{
  Codec, Loaded, loaded, load_failed, is_valid_cache_key, load_persisted_token,
}
use kubelogin_daemon.Jwt
use kubelogin_daemon.Jwt.{parse_token_expiry}
use kubelogin_daemon.Refresher.{Network, refresh}
use kubelogin_daemon.Token.{
  TokenManager, RefreshError, Refreshed, refreshed, not_refreshed, new_token_manager,
  set_initial_token, get_token, refresh_result, apply_refresh, current_refresh_token, is_revoked,
  second, unix_seconds, stop,
}
use kubelogin_daemon.Ipc
use kubelogin_daemon.Ipc.{
  Request, Response, ReportedState, auth, needs_refresh, Message, Action, ErrCode, Status, response,
  error_response, error_code_response, token_response, needs_auth_response, protocol_version,
}
use kubelogin_daemon.Server.{
  Server, Env, persist, get_or_create_token_manager, admit_stored, new_config,
}

abbrev pub is_unreachable : Text → Bool
is_unreachable e =
    contains e (codes "oidc discovery")
    || (contains e (codes "connection refused")
        || (contains e (codes "no such host") || contains e (codes "i/o timeout")))

-- `classifyRefreshError`.
unfoldable pub classify_refresh_error : Text → Response
classify_refresh_error e =
    if is_revoked e
    then error_code_response ErrCode.token_revoked Message.refresh_token_revoked Action.run_login
    else if is_unreachable e
    then error_code_response ErrCode.provider_unreachable Message.provider_is_unreachable
        Action.check_network
    else if contains e (codes "refresh")
    then error_code_response ErrCode.refresh_failed Message.token_refresh_failed
        Action.retry_or_login
    else needs_auth_response

-- The check of the cache key that most handlers begin with.
abbrev pub key_error : Text → Option Response
key_error key =
    if is_empty key
    then some (error_response Message.cache_key_required)
    else if not (is_valid_cache_key key)
    then some (error_response Message.invalid_cache_key)
    else none

abbrev with_key : Text → Server → Server × Response → Server × Response
with_key key s handled = elim (key_error key) [ some r ↦ (s, r) | none ↦ handled ]

abbrev pub put_state : Time → Text → AuthState → Server → Server
put_state now key state s = record s { states = set_state now key state s.states }

abbrev pub put_manager : Text → TokenManager → Server → Server
put_manager key m s = record s { managers = insert key m s.managers }

abbrev pub ten_minutes : Time
ten_minutes = 600 * second

abbrev pub thirty_minutes : Time
thirty_minutes = 1_800 * second

abbrev pub max_token_size : ℕ
max_token_size = 1_048_576

module _ (codec : Codec) (net : Network) where
  abbrev persist_refreshed : Env → Text → Refreshed → Server → Server
  persist_refreshed env key (not_refreshed e) s = s
  persist_refreshed env key (refreshed t) s =
      persist codec (record env { now = env.later }) key t.id_token t.refresh_token s

  -- `tm.Refresh` for the manager of a key: what it brings, and the server with the new manager and
  -- the new token file.
  unfoldable pub run_refresh : Env → Text → TokenManager → Server → Server × Refreshed
  run_refresh env key m s =
      let r = refresh_result (refresh net) env.later m in
      (persist_refreshed env key r (put_manager key (apply_refresh env.later r m) s), r)

  finish_get_token : Env → Text → Server × Refreshed → Server × Response
  finish_get_token env key (s, refreshed t) =
      (put_state env.later key AuthState.valid s, token_response t.id_token t.expiry)
  finish_get_token env key (s, not_refreshed e) =
      (put_state env.later key AuthState.needs_login s, classify_refresh_error e.text)

  refresh_for_token : Env → Text → TokenManager → Server → Server × Response
  unfolding finish_get_token run_refresh
  refresh_for_token env key m s =
      finish_get_token env key
        (run_refresh env key m (put_state env.now key AuthState.refreshing s))

  serve_token : Env → Text → Request → Server × Option TokenManager → Server × Response
  unfolding refresh_for_token
  serve_token env key req (s, none) =
      (put_state env.now key AuthState.needs_login s, needs_auth_response)
  serve_token env key req (s, some m) =
      let (m', t) = get_token env.now m in
      let s' = put_manager key m' s in
      elim t [
        | none ↦ refresh_for_token env key m' s'
        | some (id_token, expiry) ↦
            if not (ltb expiry env.now) && not req.force_refresh
            then (put_state env.now key AuthState.valid s', token_response id_token expiry)
            else refresh_for_token env key m' s'
      ]

  -- `handleGetToken`.
  unfoldable pub handle_get_token : Env → Request → Server → Server × Response
  unfolding serve_token
  handle_get_token env req s =
      let key = req.cache_key in
      let (states, (state, started)) = get_state env.now env.now key s.states in
      let s' = record s { states = states } in
      with_key key s (
        if is_login state
        then (
          s',
          record (error_code_response ErrCode.login_in_progress Message.login_is_in_progress
              (Action.retry_in_5_seconds (env.now - started))) {
                status = Status.login_in_progress;
                login_started_at = some started;
              },
        )
        else serve_token env key req (get_or_create_token_manager codec net env key req s'))

  stored : Env → Request → Time → Option Server → Server → Server × Response
  stored env req expiry none s = (s, error_response Message.too_many_managers)
  stored env req expiry (some s') s =
      let s'' = persist codec env req.cache_key req.id_token req.refresh_token s' in
      (
        record s'' { states = complete_login req.cache_key s''.states },
        token_response req.id_token expiry,
      )

  store_with_expiry : Env → Request → Jwt.Result Time → Server → Server × Response
  unfolding stored
  store_with_expiry env req (Jwt.err e) s = (s, error_response Message.bad_token_expiry)
  store_with_expiry env req (Jwt.ok expiry) s =
      let key = req.cache_key in
      let tm =
        set_initial_token env.now req.id_token req.refresh_token expiry
          (new_token_manager env.now (new_config key req)) in
      stored env req expiry
        (admit_stored codec env key req tm req.id_token req.refresh_token expiry s) s

  -- `handleStoreToken`.
  unfoldable pub handle_store_token : Env → Request → Server → Server × Response
  unfolding store_with_expiry
  handle_store_token env req s = with_key req.cache_key s (
      if is_empty req.id_token
      then (s, error_response Message.id_token_required)
      else if ltb max_token_size (length req.id_token)
          || ltb max_token_size (length req.refresh_token)
      then (s, error_response Message.token_too_large)
      else store_with_expiry env req (parse_token_expiry net.parse_json req.id_token) s)

  -- `handleBeginLogin`.
  unfoldable pub handle_begin_login : Env → Request → Server → Server × Response
  handle_begin_login env req s =
      let (states, (granted, started)) = begin_login env.now req.cache_key s.states in
      let s' = record s { states = states } in
      with_key req.cache_key s (
        if granted
        then (s', record (response Status.success) { message = some Message.login_started })
        else (
          s',
          record (response Status.login_in_progress) {
            error_code = some ErrCode.login_in_progress;
            message = some (Message.login_in_progress_since (env.now - started));
            login_started_at = some started;
          },
        ))

  -- `handleCancelLogin`.
  unfoldable pub handle_cancel_login : Env → Request → Server → Server × Response
  handle_cancel_login env req s = with_key req.cache_key s (
    record s { states = cancel_login req.cache_key s.states },
    record (response Status.success) { message = some Message.login_cancelled },
  )

  abbrev checked : Response
  checked = record (response Status.success) { daemon_running = some true }

  abbrev login_required : Response → Response
  login_required r = record r {
    ready = some false;
    state = some (auth AuthState.needs_login);
    status = Status.error;
    error_code = some ErrCode.needs_login;
    message = some Message.no_valid_token;
    action = some Action.run_login;
  }

  abbrev with_start : Time → Response → Response
  with_start started r = record r { login_started_at = if started == 0 then none else some started }

  -- The part of `handleCheck` for a manager, which is consulted in the state VALID.
  check_manager : Env → Text → Response → Option TokenManager → Server → Server × Response
  check_manager env key r none s = (put_state env.now key AuthState.needs_login s, login_required r)
  check_manager env key r (some m) s =
      let (m', t) = get_token env.now m in
      let s' = put_manager key m' s in
      let outdated : Server × Response =
        (put_state env.now key AuthState.needs_login s', login_required r) in
      elim t [
        | none ↦ outdated
        | some (id_token, expiry) ↦
            if not (ltb expiry env.now)
            then (
              s',
              record r {
                ready = some true;
                access_token_expiry = some expiry;
                refresh_token_valid = some (not (is_empty (current_refresh_token m)));
              },
            )
            else outdated
      ]

  check_in_state : Env → Text → AuthState → Time → Response → Server → Server × Response
  unfolding check_manager
  check_in_state env key AuthState.unset started r s = (s, r)
  check_in_state env key AuthState.valid started r s =
      check_manager env key r (lookup key s.managers) s
  check_in_state env key AuthState.needs_login started r s = (s, login_required r)
  check_in_state env key AuthState.login_in_progress started r s = (
    s,
    record r {
      ready = some false;
      status = Status.error;
      error_code = some ErrCode.login_in_progress;
      message = some (Message.login_in_progress_since (env.now - started));
    },
  )
  check_in_state env key AuthState.refreshing started r s =
      (s, record r { ready = some false; message = some Message.token_refresh_in_progress })

  check_state : Env → Text → Server → Server × Response
  unfolding check_in_state
  check_state env key s =
      let (states, (state, started)) = get_state env.now env.now key s.states in
      let r = with_start started (record checked { state = some (auth state) }) in
      check_in_state env key state started r (record s { states = states })

  abbrev expiry_or_zero : Jwt.Result Time → Time
  expiry_or_zero (Jwt.ok t) = t
  expiry_or_zero (Jwt.err e) = 0

  check_disk : Env → Text → Loaded → Server → Server × Response
  unfolding check_state
  check_disk env key (load_failed e) s = check_state env key s
  check_disk env key (loaded id_token refresh_token) s =
      let expiry =
        if is_empty id_token
        then 0
        else expiry_or_zero (parse_token_expiry net.parse_json id_token) in
      let has_refresh_token = not (is_empty refresh_token) in
      if not (is_empty id_token) && not (ltb expiry env.now)
      then (
        s,
        record checked {
          ready = some true;
          state = some (auth AuthState.valid);
          access_token_expiry = some expiry;
          refresh_token_valid = some has_refresh_token;
        },
      )
      else if has_refresh_token
      then (
        s,
        record checked {
          ready = some false;
          state = some needs_refresh;
          message = some Message.refresh_will_renew;
          refresh_token_valid = some true;
        },
      )
      else check_state env key s

  -- `handleCheck`.
  unfoldable pub handle_check : Env → Request → Server → Server × Response
  unfolding check_state check_disk
  handle_check env req s =
      let key = req.cache_key in
      let (dir, found) = load_persisted_token codec env.read_faults key s.dir in
      if is_empty key
      then (
        s,
        record checked {
          ready = some false;
          state = some (auth AuthState.needs_login);
          message = some Message.no_cache_key;
          action = some Action.run_login;
        },
      )
      else if not (is_valid_cache_key key)
      then (s, error_response Message.invalid_cache_key)
      else if has key s.managers
      then check_state env key s
      else check_disk env key found (record s { dir = dir })

  finish_refresh : Env → Text → Server × Refreshed → Server × Response
  finish_refresh env key (s, refreshed t) = (
    put_state env.later key AuthState.valid s,
    record (token_response t.id_token t.expiry) {
      refreshed = some true;
      message = some (Message.token_renewed t.expiry);
    },
  )
  finish_refresh env key (s, not_refreshed e) =
      (put_state env.later key AuthState.needs_login s, classify_refresh_error e.text)

  force_refresh : Env → Text → TokenManager → Server → Server × Response
  unfolding finish_refresh run_refresh
  force_refresh env key m s =
      finish_refresh env key (run_refresh env key m (put_state env.now key AuthState.refreshing s))

  refresh_manager : Env → Text → Server × Option TokenManager → Server × Response
  unfolding force_refresh
  refresh_manager env key (s, none) =
      (s, error_code_response ErrCode.needs_login Message.nothing_to_refresh Action.run_login)
  refresh_manager env key (s, some m) =
      let (m', t) = get_token env.now m in
      let s' = put_manager key m' s in
      elim t [
        | none ↦ force_refresh env key m' s'
        | some (id_token, expiry) ↦
            if ltb thirty_minutes (expiry - env.now)
            then (
              s',
              record (response Status.success) {
                refreshed = some false;
                message = some (Message.already_valid expiry);
                expiry = expiry;
              },
            )
            else force_refresh env key m' s'
      ]

  -- `handleRefresh`.
  unfoldable pub handle_refresh : Env → Request → Server → Server × Response
  unfolding refresh_manager
  handle_refresh env req s =
      let key = req.cache_key in
      with_key key s (elim (lookup key s.managers) [
        | some m ↦ refresh_manager env key (s, some m)
        | none ↦ refresh_manager env key (get_or_create_token_manager codec net env key req s)
      ])

  -- `handleHealth`. The first manager of the iteration is asked for its token.
  unfoldable pub handle_health : Env → Server → Server × Response
  handle_health env s =
      let r = record (response Status.success) {
        uptime_seconds = (env.now - s.start_time + second / 2) / second;
        pid = s.pid;
        token_count = length s.managers;
      } in
      elim s.managers [
        | [] ↦ (s, r)
        | (k, m) ∷ ms ↦
            let (m', t) = get_token env.now m in
            (
              record s { managers = (k, m') ∷ ms },
              record r {
                token_expiry = elim t [ none ↦ none | some (id_token, expiry) ↦ some expiry ];
              },
            )
      ]
