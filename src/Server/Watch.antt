-- ===== src/Server/Watch.antt =====
-- pkg/daemon/server.go: `handleConnection`, `Shutdown`, and `idleWatcher` with the refresh after a
-- sleep.
pub mod Invariant
pub mod Access
pub mod Idle
pub mod Runs
pub mod Served
use kubelogin_daemon.Prelude.{
  ℕ, ◌+◌, ◌-◌, ◌*◌, ◌%◌, ◌≡◌, Bool, true, false, not, ◌&&◌, ◌||◌, Option, none, some, List, [], ◌∷◌,
  ltb, leb, ◌==◌, map, if◌then◌else◌,
}
use kubelogin_daemon.Text.{Text, codes, text_eq}
use kubelogin_daemon.Assoc.{Assoc, lookup, insert}
use kubelogin_daemon.State.{Time, AuthState, set_state, evict_stale}
use kubelogin_daemon.Persist.Files.{put}
use kubelogin_daemon.Persist.{Codec, cleanup_stale_temp_files}
use kubelogin_daemon.Refresher.{Network}
use kubelogin_daemon.Token.{
  TokenManager, Refreshed, refreshed, not_refreshed, get_token, stop, unix_seconds, second,
}
use kubelogin_daemon.Ipc
use kubelogin_daemon.Ipc.{
  Request, Response, Message, Status, Command, response, error_response, protocol_version,
}
use kubelogin_daemon.Server.{Server, Env}
use kubelogin_daemon.Server.Requests.{
  put_state, put_manager, run_refresh, ten_minutes, handle_get_token, handle_store_token,
  handle_begin_login, handle_cancel_login, handle_check, handle_refresh, handle_health,
}

abbrev stop_all : Assoc TokenManager → Assoc TokenManager
stop_all = map (λ e. (e.0, stop e.1))

-- `Shutdown`: every manager is stopped, and the nonce file goes.
unfoldable pub shutdown : Server → Server
shutdown s = if s.is_shut_down then s else record s {
  is_shut_down = true;
  managers = stop_all s.managers;
  dir = put (codes "nonce") none s.dir;
}

-- What `handleConnection` reads from a connection. `peer_ok` of a connection is the outcome of
-- `verifyPeerUID`.
pub data Incoming : Type 0 where
  undecodable trailing : Incoming
  decoded : Request → Incoming

module _ (codec : Codec) (net : Network) where
  dispatch : Env → Request → Command → Server → Server × Response
  dispatch env req Command.get_token s = handle_get_token codec net env req s
  dispatch env req Command.store_token s = handle_store_token codec net env req s
  dispatch env req Command.begin_login s = handle_begin_login codec net env req s
  dispatch env req Command.cancel_login s = handle_cancel_login codec net env req s
  dispatch env req Command.check s = handle_check codec net env req s
  dispatch env req Command.refresh s = handle_refresh codec net env req s
  dispatch env req Command.health s = handle_health codec net env s
  dispatch env req Command.shutdown s = (shutdown s, response Status.success)
  dispatch env req (Command.unknown c) s = (s, error_response (Message.unknown_command c))

  handle_request : Env → Request → Server → Server × Response
  unfolding dispatch
  handle_request env req s =
      let s' = record s { last_request = unix_seconds env.now } in
      if not (text_eq req.nonce s.nonce)
      then (s, error_response Message.invalid_nonce)
      else if not (req.version == protocol_version)
      then (s', record (error_response (Message.unsupported_version req.version)) { pid = s.pid })
      else dispatch env req req.command s'

  some_response : Server × Response → Server × Option Response
  some_response (s, r) = (s, some r)

  handle_incoming : Env → Incoming → Server → Server × Option Response
  unfolding handle_request some_response
  handle_incoming env undecodable s = (s, some (error_response Message.invalid_request))
  handle_incoming env trailing s = (s, some (error_response Message.trailing_data))
  handle_incoming env (decoded req) s = some_response (handle_request env req s)

  -- `handleConnection`; with no response the connection is closed at once.
  unfoldable pub handle_connection : Env → Bool → Incoming → Server → Server × Option Response
  unfolding handle_incoming
  handle_connection env peer_ok incoming s =
      if peer_ok then handle_incoming env incoming s else (s, none)

  finish_wake : Env → Text → Server × Refreshed → Server
  finish_wake env key (s, refreshed t) = put_state env.later key AuthState.valid s
  finish_wake env key (s, not_refreshed e) = put_state env.later key AuthState.needs_login s

  -- The goroutine of `refreshExpiredTokensAfterWake` for one key, once it has its slot.
  unfoldable pub wake_refresh : Env → Text → TokenManager → Server → Server
  unfolding finish_wake run_refresh
  wake_refresh env key m s =
      finish_wake env key
        (run_refresh codec net env key m (put_state env.now key AuthState.refreshing s))

abbrev expires_soon : Time → TokenManager → Bool
expires_soon now m = elim m.current [ none ↦ false | some e ↦ ltb e.expiry (now + ten_minutes) ]

-- Its `GetToken` of every manager.
abbrev touch_all : Time → Assoc TokenManager → Assoc TokenManager
touch_all now = map (λ e. (e.0, (get_token now e.1).0))

-- The keys for which `refreshExpiredTokensAfterWake` starts a goroutine.
unfoldable pub wake_keys : Time → Assoc TokenManager → List Text
wake_keys now [] = []
wake_keys now ((k, m) ∷ ms) = if expires_soon now m then k ∷ wake_keys now ms else wake_keys now ms

-- The socket file as `idleWatcher` finds it, where the platform has one.
pub data Socket : Type 0 where
  not_watched ours disappeared replaced : Socket

pub data TickResult : Type 0 where
  keeps_running : List Text → TickResult
  shuts_down : TickResult

abbrev is_ghost : Socket → Bool
is_ghost disappeared = true
is_ghost replaced = true
is_ghost _ = false

-- One tick of `idleWatcher`. `drift` is the time since the last tick, and `kept` are the names of
-- temporary files that cannot be removed. The result names the keys to refresh.
unfoldable pub idle_tick : Time → Time → ℕ → (Text → Bool) → Socket → Server → Server × TickResult
idle_tick now drift tick_count kept socket s =
    let slept = ltb (2 * s.idle_check_tick) drift in
    let woken : List Text = if slept then wake_keys now s.managers else [] in
    let swept = record s {
      managers = if slept then touch_all now s.managers else s.managers;
      states = evict_stale now s.states;
      dir = if tick_count % 60 == 0 then cleanup_stale_temp_files now kept s.dir else s.dir;
    } in
    let idle = now - s.last_request * second in
    if is_ghost socket
    then (shutdown s, shuts_down)
    else if not (s.idle_timeout == 0) && ltb s.idle_timeout idle
    then (shutdown swept, shuts_down)
    else (swept, keeps_running woken)
