-- ===== src/Server/Watch/Invariant.antt =====
-- pkg/daemon/server.go: the invariant of the server, over every request, the refreshes after a
-- sleep and the ticks of `idleWatcher`.
use kubelogin_daemon.Prelude.{
  ℕ, ◌*◌, ◌%◌, ◌≤◌, ◌<◌, ◌≡◌, refl, Bool, true, false, none, [], ◌∷◌, arith, ltb, ◌==◌, length,
  if◌then◌else◌, if_both, map,
}
use kubelogin_daemon.Text.{Text}
use kubelogin_daemon.Assoc.{Assoc, lookup, has, Unique}
use kubelogin_daemon.State.{Time, AuthState, evict_stale}
use kubelogin_daemon.State.Entries.{evict_stale-StateInv}
use kubelogin_daemon.Persist.{Codec, cleanup_stale_temp_files}
use kubelogin_daemon.Refresher.{Network}
use kubelogin_daemon.Token.{
  TokenManager, Refreshed, refreshed, not_refreshed, stop, get_token, unix_seconds,
}
use kubelogin_daemon.Ipc.{Request, Command}
use kubelogin_daemon.Server.{Server, Env}
use kubelogin_daemon.Server.Managers.{Counted, ServerInv}
use kubelogin_daemon.Server.Requests.Invariant.{
  ServerInv-mono, put_state-ServerInv, run_refresh-ServerInv, handle_get_token-ServerInv,
  handle_store_token-ServerInv, handle_begin_login-ServerInv, handle_cancel_login-ServerInv,
}
use kubelogin_daemon.Server.Requests.Reports.{
  handle_check-ServerInv, handle_refresh-ServerInv, handle_health-ServerInv,
}
use kubelogin_daemon.Server.Watch.{
  shutdown, Incoming, undecodable, trailing, decoded, dispatch, handle_request, some_response,
  handle_incoming, handle_connection, finish_wake, wake_refresh, touch_all, Socket, idle_tick,
}

map_values : (TokenManager → TokenManager) → Assoc TokenManager → Assoc TokenManager
map_values f = map (λ e. (e.0, f e.1))

map_values_absent :
    (f : TokenManager → TokenManager) (k : Text) (ms : Assoc TokenManager)
    → lookup k ms ≡ none
    → lookup k (map_values f ms) ≡ none
unfolding lookup map_values
map_values_absent f k [] h = refl
map_values_absent f k ((j, m) ∷ ms) h = ground (arith, map_values_absent f k ms)

map_values-Unique :
    (f : TokenManager → TokenManager) (ms : Assoc TokenManager)
    → Unique ms
    → Unique (map_values f ms)
unfolding map_values
map_values-Unique f [] u = tt
map_values-Unique f ((j, m) ∷ ms) u = (map_values_absent f j ms u.0, map_values-Unique f ms u.1)

map_values-length :
    (f : TokenManager → TokenManager) (ms : Assoc TokenManager)
    → length (map_values f ms) ≡ length ms
unfolding map_values
map_values-length f [] = refl
map_values-length f (e ∷ ms) = ground (arith, map_values-length f ms)

map_values-Counted :
    {n : ℕ} (f : TokenManager → TokenManager) (ms : Assoc TokenManager)
    → Counted ms n
    → Counted (map (λ e. (e.0, f e.1)) ms) n
unfolding map_values
map_values-Counted f ms c =
    let exact = c.exact in
    record {
      unique = map_values-Unique f ms c.unique;
      exact = ground (arith, map_values-length f ms);
      capped = c.capped;
    }

shutdown-ServerInv : {now : Time} (s : Server) → ServerInv now s → ServerInv now (shutdown s)
unfolding shutdown
shutdown-ServerInv {now} s v =
    if_both (ServerInv now) s.is_shut_down v
      (record { counted = map_values-Counted stop s.managers v.counted; states = v.states })

module _ (codec : Codec) (net : Network) (env : Env) (started : 0 < env.now)
    (ordered : env.now ≤ env.later) where
  dispatch-ServerInv :
      (req : Request) (c : Command) (s : Server)
      → ServerInv env.now s
      → ServerInv env.later (dispatch codec net env req c s).0
  unfolding dispatch
  dispatch-ServerInv req Command.get_token s v =
      handle_get_token-ServerInv codec net env started ordered req s v
  dispatch-ServerInv req Command.store_token s v =
      handle_store_token-ServerInv codec net env started ordered req s v
  dispatch-ServerInv req Command.begin_login s v =
      handle_begin_login-ServerInv codec net env started ordered req s v
  dispatch-ServerInv req Command.cancel_login s v =
      handle_cancel_login-ServerInv codec net env started ordered req s v
  dispatch-ServerInv req Command.check s v =
      handle_check-ServerInv codec net env started ordered req s v
  dispatch-ServerInv req Command.refresh s v =
      handle_refresh-ServerInv codec net env started ordered req s v
  dispatch-ServerInv req Command.health s v =
      handle_health-ServerInv codec net env started ordered s v
  dispatch-ServerInv req Command.shutdown s v = shutdown-ServerInv s (ServerInv-mono s ordered v)
  dispatch-ServerInv req (Command.unknown c) s v = ServerInv-mono s ordered v

  handle_request-ServerInv :
      (req : Request) (s : Server)
      → ServerInv env.now s
      → ServerInv env.later (handle_request codec net env req s).0
  unfolding handle_request
  handle_request-ServerInv req s v =
      let same = ServerInv-mono s ordered v in
      let done =
        dispatch-ServerInv req req.command (record s { last_request = unix_seconds env.now })
          (record { counted = v.counted; states = v.states }) in
      let read : ServerInv env.later (record s { last_request = unix_seconds env.now }) = record {
        counted = same.counted;
        states = same.states;
      } in
      ground arith

  handle_incoming-ServerInv :
      (incoming : Incoming) (s : Server)
      → ServerInv env.now s
      → ServerInv env.later (handle_incoming codec net env incoming s).0
  unfolding handle_incoming some_response
  handle_incoming-ServerInv undecodable s v = ServerInv-mono s ordered v
  handle_incoming-ServerInv trailing s v = ServerInv-mono s ordered v
  handle_incoming-ServerInv (decoded req) s v = handle_request-ServerInv req s v

  -- Whatever arrives, the server stays sound: every key has one manager, the count of the managers
  -- is their number and at most 256, and the entries of the states are unique and sound, with no
  -- login that starts in the future. The clock is not 0 and does not go back during the request.
  pub handle_connection-ServerInv :
      (peer_ok : Bool) (incoming : Incoming) (s : Server)
      → ServerInv env.now s
      → ServerInv env.later (handle_connection codec net env peer_ok incoming s).0
  unfolding handle_connection
  handle_connection-ServerInv false incoming s v = ServerInv-mono s ordered v
  handle_connection-ServerInv true incoming s v = handle_incoming-ServerInv incoming s v

  finish_wake-ServerInv :
      (key : Text) (r : Server × Refreshed)
      → ServerInv env.now r.0
      → ServerInv env.later (finish_wake codec net env key r)
  unfolding finish_wake
  finish_wake-ServerInv key (s, refreshed t) v =
      put_state-ServerInv key _ s (omega (arith, started, ordered)) refl
        (ServerInv-mono s ordered v)
  finish_wake-ServerInv key (s, not_refreshed e) v =
      put_state-ServerInv key _ s (omega (arith, started, ordered)) refl
        (ServerInv-mono s ordered v)

  -- A refresh after a sleep, of a manager that the map still has, keeps the server sound; the clock
  -- is not 0 and does not go back during the refresh.
  pub wake_refresh-ServerInv :
      (key : Text) (m : TokenManager) (s : Server)
      → has key s.managers ≡ true
      → ServerInv env.now s
      → ServerInv env.later (wake_refresh codec net env key m s)
  unfolding wake_refresh
  wake_refresh-ServerInv key m s h v = finish_wake-ServerInv key _ (
      run_refresh-ServerInv codec net env key m _ h
        (put_state-ServerInv key AuthState.refreshing s started refl v))

-- A tick of `idleWatcher` keeps the server sound.
pub idle_tick-ServerInv :
    (now drift : Time) (tick_count : ℕ) (kept : Text → Bool) (socket : Socket) (s : Server)
    → ServerInv now s
    → ServerInv now (idle_tick now drift tick_count kept socket s).0
unfolding idle_tick
idle_tick-ServerInv now drift tick_count kept socket s v =
    let slept = ltb (2 * s.idle_check_tick) drift in
    let swept = record s {
      managers = if slept then touch_all now s.managers else s.managers;
      states = evict_stale now s.states;
      dir = if tick_count % 60 == 0 then cleanup_stale_temp_files now kept s.dir else s.dir;
    } in
    let touched =
      if_both (λ ms. Counted ms s.manager_count) slept
        (map_values-Counted (λ m. (get_token now m).0) s.managers v.counted) v.counted in
    let kept : ServerInv now swept = record {
      counted = touched;
      states = evict_stale-StateInv s.states v.states;
    } in
    let gone = shutdown-ServerInv s v in let ended = shutdown-ServerInv swept kept in ground arith
