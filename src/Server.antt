-- ===== src/Server.antt =====
-- pkg/daemon/server.go: the daemon's state, and its token managers. A manager is known by its key,
-- and the managers of the map are their values. Each function runs as a whole: a handler's reads of
-- the clock are one time `now`, and `later` after it has waited for the provider; what other
-- goroutines do in between enters through the state that a critical section starts from.
pub mod Requests
pub mod Watch
pub mod Managers
pub mod Admission
mod Examples
use kubelogin_daemon.Prelude.{
  ℕ, ◌+◌, ◌-◌, ◌*◌, ◌≡◌, Bool, true, false, not, ◌&&◌, ◌||◌, Option, none, some, List, [], ◌∷◌, ltb,
  leb, ◌==◌, length, if◌then◌else◌,
}
use kubelogin_daemon.Text.{Text, codes, text_eq, is_empty, contains}
use kubelogin_daemon.Assoc.{Assoc, lookup, insert, delete, has}
use kubelogin_daemon.State.{Time, StateManager, delete_entry}
use kubelogin_daemon.Persist.Files.{Fs, run_calls, put}
use kubelogin_daemon.Persist.{
  Codec, Faults, ReadFaults, Loaded, loaded, load_failed, persist_token, load_persisted_token,
}
use kubelogin_daemon.Jwt
use kubelogin_daemon.Jwt.{RawClaims, parse_token_expiry}
use kubelogin_daemon.Refresher.{Network, OidcRefresher}
use kubelogin_daemon.Token.{
  TokenManager, TokenEntry, Config, new_token_manager, set_initial_token, set_refresher, get_token,
  stop, current_refresh_token, second, unix_seconds,
}
use kubelogin_daemon.Ipc.{Request, refresher_of}

abbrev pub max_token_managers : ℕ
max_token_managers = 256

-- `dir` is the runtime directory.
pub record Server : Type 0 where
  pub managers : Assoc TokenManager
  pub manager_count : ℕ
  pub states : StateManager
  pub nonce : Text
  pub last_request : ℕ
  pub start_time : Time
  pub idle_timeout : Time
  pub idle_check_tick : Time
  pub dir : Fs
  pub pid : ℕ
  pub is_shut_down : Bool

-- The surroundings of one request: the clock, and which system calls fail. `suffix` is what
-- `os.CreateTemp` draws.
pub record Env : Type 0 where
  pub now : Time
  pub later : Time
  pub faults : Faults
  pub suffix : Text
  pub read_faults : ReadFaults

-- `NewServer`: `nonce` is empty until `generateNonce`, and a timeout below 0 is 0. `dir` and `pid`
-- are what the process finds.
unfoldable pub new_server : Time → Time → Time → Fs → ℕ → Server
new_server now idle_timeout idle_check_tick dir pid = record {
  managers = [];
  manager_count = 0;
  states = [];
  nonce = [];
  last_request = unix_seconds now;
  start_time = now;
  idle_timeout = idle_timeout;
  idle_check_tick = if idle_check_tick == 0 then 30 * second else idle_check_tick;
  dir = dir;
  pid = pid;
  is_shut_down = false;
}

-- The loop of `evictOldestManagerLocked` over the managers, with the oldest so far.
oldest_from : Option (Text × TokenManager) → Assoc TokenManager → Option (Text × TokenManager)
oldest_from best [] = best
oldest_from none ((k, m) ∷ ms) = oldest_from (some (k, m)) ms
oldest_from (some (j, b)) ((k, m) ∷ ms) =
    oldest_from (if ltb m.last_access b.last_access then some (k, m) else some (j, b)) ms

unfoldable pub oldest : Assoc TokenManager → Option (Text × TokenManager)
unfolding oldest_from
oldest ms = oldest_from none ms

-- `GetToken` and `CurrentRefreshToken` of the manager that is evicted.
abbrev tokens_of : TokenManager → Option (Text × Text)
tokens_of m = elim m.current [ none ↦ none | some e ↦ some (e.id_token, e.refresh_token) ]

abbrev pub new_config : Text → Request → Config
new_config key req = record {
  refresher = refresher_of req;
  cache_key = key;
  refresh_margin = 0;
  min_refresh_interval = 0;
  persist_interval = 0;
}

module _ (codec : Codec) where
  -- A call of `PersistToken`; its error is only logged.
  unfoldable pub persist : Env → Text → Text → Text → Server → Server
  persist env key id_token refresh_token s =
      let calls = (persist_token codec env.faults env.suffix key id_token refresh_token).0 in
      record s { dir = run_calls env.now calls s.dir }

  persist_tokens : Env → Text → Option (Text × Text) → Server → Server
  unfolding persist
  persist_tokens env key none s = s
  persist_tokens env key (some (id_token, refresh_token)) s =
      persist env key id_token refresh_token s

  evict : Env → Option (Text × TokenManager) → Server → Server × Bool
  unfolding persist_tokens
  evict env none s = (s, false)
  evict env (some (key, m)) s =
      let s' = persist_tokens env key (tokens_of m) s in
      (
        record s' {
          managers = delete key s.managers;
          manager_count = s.manager_count - 1;
          states = delete_entry key s.states;
        },
        true,
      )

  -- `evictOldestManagerLocked`. The manager that goes is stopped, and is not in the map any more.
  unfoldable pub evict_oldest_manager_locked : Env → Server → Server × Bool
  unfolding evict
  evict_oldest_manager_locked env s = evict env (oldest s.managers) s

  store_new : Text → TokenManager → Server → Server
  store_new key tm s = record s {
    managers = insert key tm s.managers;
    manager_count = s.manager_count + 1;
  }

  -- The critical section of `managerMu` in `getOrCreateTokenManager`: the cap, the eviction and
  -- `LoadOrStore`. Another goroutine may have stored a manager in the meantime, which is kept, with
  -- the configuration of this request.
  unfoldable pub admit_loaded :
      Env → Text → Request → TokenManager → Server → Server × Option TokenManager
  unfolding evict_oldest_manager_locked store_new
  admit_loaded env key req tm s =
      let (s', made_room) =
        if leb max_token_managers s.manager_count
        then evict_oldest_manager_locked env s
        else (s, true) in
      if not made_room then (s', none) else elim (lookup key s'.managers) [
        | none ↦ (store_new key tm s', some tm)
        | some m ↦
            let m' = set_refresher (refresher_of req) m in
            (record s' { managers = insert key m' s'.managers }, some m')
      ]

  abbrev expiry_or : Time → Jwt.Result Time → Time
  expiry_or now (Jwt.ok t) = t
  expiry_or now (Jwt.err e) = now

  -- The manager for a token that was loaded from disk.
  unfoldable pub manager_from_disk : Network → Env → Text → Request → Text → Text → TokenManager
  manager_from_disk net env key req id_token refresh_token =
      let expiry =
        if is_empty id_token
        then env.now
        else expiry_or env.now (parse_token_expiry net.parse_json id_token) in
      set_initial_token env.now id_token refresh_token expiry
        (new_token_manager env.now (new_config key req))

  slow_path : Network → Env → Text → Request → Fs × Loaded → Server → Server × Option TokenManager
  unfolding admit_loaded manager_from_disk
  slow_path net env key req (dir, load_failed e) s = (record s { dir = dir }, none)
  slow_path net env key req (dir, loaded id_token refresh_token) s =
      if is_empty refresh_token
      then (record s { dir = dir }, none)
      else admit_loaded env key req (manager_from_disk net env key req id_token refresh_token)
          (record s { dir = dir })

  -- `getOrCreateTokenManager`.
  unfoldable pub get_or_create_token_manager :
      Network → Env → Text → Request → Server → Server × Option TokenManager
  unfolding slow_path
  get_or_create_token_manager net env key req s = elim (lookup key s.managers) [
    | some m ↦
        let m' = set_refresher (refresher_of req) m in
        (record s { managers = insert key m' s.managers }, some m')
    | none ↦ slow_path net env key req (load_persisted_token codec env.read_faults key s.dir) s
  ]

  -- The critical section of `managerMu` in `handleStoreToken`. The manager that is there gets the
  -- new token and configuration. `none`: there is no room.
  unfoldable pub admit_stored :
      Env → Text → Request → TokenManager → Text → Text → Time → Server → Option Server
  unfolding evict_oldest_manager_locked store_new
  admit_stored env key req tm id_token refresh_token expiry s =
      let (s', made_room) =
        if not (has key s.managers) && leb max_token_managers s.manager_count
        then evict_oldest_manager_locked env s
        else (s, true) in
      if not made_room then none else elim (lookup key s'.managers) [
        | none ↦ some (store_new key tm s')
        | some m ↦
            let m' =
              set_refresher (refresher_of req)
                (set_initial_token env.now id_token refresh_token expiry m) in
            some (record s' { managers = insert key m' s'.managers })
      ]
