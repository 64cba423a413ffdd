-- ===== src/Server/Examples.antt =====
-- The theorems on pkg/daemon/server.go at a concrete daemon.
use kubelogin_daemon.Prelude.{
  ℕ, ◌+◌, ◌*◌, ◌≤◌, ◌≡◌, refl, true, false, none, some, [], ◌∷◌, arith, if◌then◌else◌, All,
}
use kubelogin_daemon.Text.{Text, codes, text_eq, contains, has_prefix}
use kubelogin_daemon.Assoc.{lookup, insert}
use kubelogin_daemon.State.{
  Time, needs_login_entry, get_state, begin_login, has_expired, complete_login,
}
use kubelogin_daemon.Persist.Files.{Fs}
use kubelogin_daemon.Persist.{loaded, load_persisted_token, persist_token}
use kubelogin_daemon.Persist.Loading.{no_read_faults}
use kubelogin_daemon.Persist.Samples.{plain_codec, no_faults}
use kubelogin_daemon.Jwt.{parse_token_expiry, decode_without_verify}
use kubelogin_daemon.Refresher.{Result, ok, err, Network}
use kubelogin_daemon.Refresher
use kubelogin_daemon.Refresher.Samples.{answering, plain_provider, plain_refresher}
use kubelogin_daemon.Token.{
  TokenManager, TokenEntry, RefreshError, not_refreshed, refresh_result, second, new_token_manager,
  set_initial_token, get_token,
}
use kubelogin_daemon.Ipc.{Request, Command, Status, ErrCode}
use kubelogin_daemon.Server.{
  oldest, Server, Env, new_server, new_config, evict_oldest_manager_locked, admit_stored,
  get_or_create_token_manager,
}
use kubelogin_daemon.Server.Managers.{ServerInv}
use kubelogin_daemon.Server.Requests.{
  handle_get_token, handle_store_token, handle_begin_login, handle_check, classify_refresh_error,
  run_refresh,
}
use kubelogin_daemon.Server.Requests.Invariant.{ServerInv-mono, handle_store_token-ServerInv}
use kubelogin_daemon.Server.Requests.Tokens.{Serves, handle_get_token-Serves}
use kubelogin_daemon.Server.Requests.Classify.{classify-discovery_failure}
use kubelogin_daemon.Server.Requests.Sequences.{store_then_get_token, begin_login_blocks}
use kubelogin_daemon.Server.Requests.Saving.{CanSave, evict_oldest_saves}
use kubelogin_daemon.Server.Requests.Restart.{store_restart_get_token}
use kubelogin_daemon.Server.Requests.Ready.{check_then_get_token, check_ready_unserved}
use kubelogin_daemon.Server.Requests.Denials.{handle_get_token_fails, run_refresh_saves}
use kubelogin_daemon.Server.Watch.{decoded, handle_connection, not_watched, idle_tick}
use kubelogin_daemon.Server.Watch.Access.{IsRefusal, handle_connection_unauthorized}
use kubelogin_daemon.Server.Watch.Idle.{AfterTick, idle_tick_decides}
use kubelogin_daemon.Server.Watch.Runs.{serve_all, end_of, serve_all-ServerInv}

abbrev empty_dir : Fs
empty_dir name = none

-- 1970, in nanoseconds.
abbrev epoch : Time
epoch = 62_135_596_800 * second

abbrev env_at : Time → Time → Env
env_at now later = record {
  now = now;
  later = later;
  faults = no_faults;
  suffix = codes "77";
  read_faults = no_read_faults;
}

abbrev at_time : ℕ → Env
at_time seconds = env_at (epoch + seconds * second) (epoch + (seconds + 1) * second)

abbrev key : Text
key = codes "ab12"

abbrev jwt : Text
jwt = codes "h.e30.s"

abbrev request : Command → Request
request c = record {
  version = 2;
  command = c;
  cache_key = key;
  nonce = [];
  issuer_url = plain_provider.issuer_url;
  client_id = plain_provider.client_id;
  client_secret = plain_provider.client_secret;
  extra_scopes = plain_provider.extra_scopes;
  extra_params = [];
  use_access_token = false;
  request_headers = [];
  redirect_url = [];
  force_refresh = false;
  tls_config = plain_refresher.tls_config;
  id_token = jwt;
  refresh_token = codes "rt";
}

abbrev new : Server
new = new_server (epoch + 1) 0 0 empty_dir 7

abbrev storing : Request
storing = request Command.store_token

abbrev getting : Request
getting = request Command.get_token

abbrev stored : Server
stored = (handle_store_token plain_codec answering (at_time 1) storing new).0

new-ServerInv : ServerInv (epoch + 1 * second) new
unfolding new_server
new-ServerInv = record {
  counted = record { unique = tt; exact = refl; capped = omega arith };
  states = record { unique = tt; sound = tt };
}

stored_ok :
    ((handle_store_token plain_codec answering (at_time 1) storing new).1.status ≡ Status.success)
    × ((handle_store_token plain_codec answering (at_time 1) storing new).1.expiry
        ≡ epoch + 7_200 * second)
unfolding handle_store_token parse_token_expiry admit_stored lookup new_server
stored_ok = (refl, refl)

store_then_get_token_example :
    let answer = (handle_store_token plain_codec answering (at_time 1) storing new).1 in
    let r = (handle_get_token plain_codec answering (at_time 9) getting stored).1 in
    (r.status ≡ Status.success) × (r.token ≡ jwt) × (r.expiry ≡ answer.expiry)
store_then_get_token_example =
    store_then_get_token plain_codec answering (at_time 1) (at_time 9) storing getting new
      new-ServerInv stored_ok.0 refl refl (rw (stored_ok.1) (omega arith))

can_save :
    (now later : Time) → CanSave plain_codec (env_at now later) key jwt (codes "rt") empty_dir
unfolding persist_token
can_save now later = record {
  free = refl;
  id_ascii = refl;
  refresh_ascii = refl;
  fits = omega arith;
  no_error = refl;
}

store_restart_get_token_example :
    let (s', answer) = handle_store_token plain_codec answering (at_time 1) storing new in
    let s'' = new_server (epoch + 50) 0 0 s'.dir 8 in
    let r = (handle_get_token plain_codec answering (at_time 9) getting s'').1 in
    (r.status ≡ Status.success) × (r.token ≡ jwt) × (r.expiry ≡ answer.expiry)
unfolding new_server
store_restart_get_token_example =
    store_restart_get_token plain_codec answering (at_time 1) (at_time 9) storing getting new
      (epoch + 50) 0 0 8 (omega arith) (can_save _ _) refl stored_ok.0 refl refl refl
      (rw (stored_ok.1) (omega arith))

begin_login_blocks_example :
    let s' = (handle_begin_login plain_codec answering (at_time 1) storing new).0 in
    let (s'', r) = handle_get_token plain_codec answering (at_time 200) getting s' in
    let again = (handle_begin_login plain_codec answering (at_time 200) getting s').1 in
    ((s'' ≡ s')
      × (r.status ≡ Status.login_in_progress)
      × (r.token ≡ [])
      × (r.login_started_at ≡ some (epoch + 1 * second)))
    × (again.status ≡ Status.login_in_progress)
    × (again.login_started_at ≡ some (epoch + 1 * second))
unfolding handle_begin_login begin_login new_server lookup has_expired
begin_login_blocks_example =
    begin_login_blocks plain_codec answering (at_time 1) (at_time 200) storing getting new refl refl
      refl (omega arith)

served_ok :
    (handle_get_token plain_codec answering (at_time 9) getting stored).1.status ≡ Status.success
served_ok = store_then_get_token_example.0

stored-ServerInv : ServerInv (epoch + 9 * second) stored
stored-ServerInv = ServerInv-mono stored (omega arith) (
    handle_store_token-ServerInv plain_codec answering (at_time 1) (omega arith) (omega arith)
      storing new new-ServerInv)

handle_get_token-Serves_example :
    let (s', r) = handle_get_token plain_codec answering (at_time 9) getting stored in
    Serves answering (at_time 9) getting s' r
handle_get_token-Serves_example =
    handle_get_token-Serves plain_codec answering (at_time 9) getting stored stored-ServerInv
      served_ok

handle_get_token_fails_example :
    let (s', r) = handle_get_token plain_codec answering (at_time 1) getting new in
    (r.token ≡ []) × (lookup key s'.states ≡ some needs_login_entry)
unfolding new_server get_state lookup handle_get_token get_or_create_token_manager
    load_persisted_token
handle_get_token_fails_example =
    handle_get_token_fails plain_codec answering (at_time 1) getting new refl refl
      (λ (e : Status.needs_auth ≡ Status.success). ground arith)

abbrev hour_token : TokenEntry
hour_token = record {
  id_token = jwt;
  refresh_token = codes "rt";
  expiry = epoch + 3_600 * second;
  obtained_at = epoch + 1 * second;
}

abbrev managing : TokenManager
managing = record (new_token_manager (epoch + 1 * second) (new_config key getting)) {
  current = some hour_token;
}

-- A manager, whose refresh the provider answers.
run_refresh_saves_example :
    let s' = (run_refresh plain_codec answering (at_time 0) key managing new).0 in
    (load_persisted_token plain_codec no_read_faults key s'.dir ≡ (s'.dir, loaded jwt (codes "rt")))
    × (m' : TokenManager) × (lookup key s'.managers ≡ some m')
    × (m'.current ≡ some (record hour_token { expiry = epoch + 7_200 * second }))
unfolding run_refresh refresh_result new_server Refresher.refresh new_token_manager
    decode_without_verify
run_refresh_saves_example =
    run_refresh_saves plain_codec answering (at_time 0) key managing new
      (record hour_token { expiry = epoch + 7_200 * second }) refl (can_save _ _)

abbrev offline : Network
offline = record answering { discover = λ client issuer. err (codes "dial tcp") }

classify-discovery_failure_example :
    (e : RefreshError) × (refresh_result (Refresher.refresh offline) 5 managing ≡ not_refreshed e)
    × ((classify_refresh_error e.text).error_code ≡ some ErrCode.provider_unreachable)
unfolding contains has_prefix Refresher.build_tls_config new_token_manager
classify-discovery_failure_example =
    classify-discovery_failure offline 5 managing hour_token none (codes "dial tcp") refl refl refl
      refl refl

handle_connection_unauthorized_example :
    let (s', r) =
      handle_connection plain_codec answering
        (at_time 1)
        true
        (decoded (record storing { nonce = codes "guess" }))
        new in
    (s' ≡ new) × IsRefusal r
unfolding new_server text_eq
handle_connection_unauthorized_example =
    handle_connection_unauthorized plain_codec answering (at_time 1) true
      (decoded (record storing { nonce = codes "guess" })) new refl

serve_all-ServerInv_example :
    ServerInv
      (end_of
        (epoch + 1)
        ((at_time 1, true, decoded storing) ∷ (at_time 9, true, decoded getting) ∷ []))
      (serve_all plain_codec answering
        ((at_time 1, true, decoded storing) ∷ (at_time 9, true, decoded getting) ∷ [])
        new)
serve_all-ServerInv_example =
    serve_all-ServerInv plain_codec answering (epoch + 1) 0 0 empty_dir 7
      ((at_time 1, true, decoded storing) ∷ (at_time 9, true, decoded getting) ∷ []) (omega arith)
      (omega arith, omega arith, (omega arith, omega arith, tt))

idle_tick_decides_example :
    let (s', r) = idle_tick (epoch + 90 * second) (70 * second) 3 (λ name. false) not_watched new in
    AfterTick (epoch + 90 * second) (70 * second) new s' not_watched r
unfolding new_server
idle_tick_decides_example =
    idle_tick_decides (epoch + 90 * second) (70 * second) 3 (λ name. false) not_watched new tt

-- A daemon with one manager.
abbrev busy : Server
busy = record new { managers = (key, managing) ∷ []; manager_count = 1 }

busy-ServerInv : ServerInv (epoch + 9 * second) busy
unfolding new_server lookup
busy-ServerInv = record {
  counted = record { unique = (refl, tt); exact = refl; capped = omega arith };
  states = record { unique = tt; sound = tt };
}

evict_oldest_saves_example :
    let (s', made_room) = evict_oldest_manager_locked plain_codec (at_time 9) busy in
    (made_room ≡ true)
    × All (λ e. managing.last_access ≤ e.1.last_access) busy.managers
    × (lookup key s'.managers ≡ (if text_eq key key then none else lookup key busy.managers))
    × (s'.manager_count + 1 ≡ busy.manager_count)
    × (lookup key s'.states ≡ none)
    × (load_persisted_token plain_codec no_read_faults key s'.dir
        ≡ (s'.dir, loaded jwt (codes "rt")))
unfolding oldest new_server
evict_oldest_saves_example =
    evict_oldest_saves plain_codec (at_time 9) busy key key managing hour_token busy-ServerInv refl
      refl (can_save _ _)

check_then_get_token_example :
    let s' = (handle_check plain_codec answering (at_time 9) storing stored).0 in
    let r = (handle_get_token plain_codec answering (at_time 20) getting s').1 in
    (r.status ≡ Status.success) × (r.expiry ≡ epoch + 7_200 * second)
unfolding handle_store_token parse_token_expiry admit_stored lookup new_server handle_check insert
    text_eq get_state complete_login get_token set_initial_token new_token_manager
check_then_get_token_example =
    check_then_get_token plain_codec answering (at_time 9) (at_time 20) storing getting stored
      (epoch + 7_200 * second) refl refl refl refl refl refl (omega arith)

-- The directory has a file without a refresh token.
abbrev saved_alone : Fs
saved_alone =
    (handle_store_token plain_codec answering (at_time 1) (record storing { refresh_token = [] })
      new).0.dir

check_ready_unserved_example :
    let s = new_server (epoch + 50) 0 0 saved_alone 8 in
    ((handle_check plain_codec answering (at_time 9) getting s).1.ready ≡ some true)
    × ((handle_get_token plain_codec answering (at_time 9) getting s).1.status ≡ Status.needs_auth)
unfolding new_server lookup handle_store_token parse_token_expiry admit_stored persist_token
    load_persisted_token text_eq get_state
check_ready_unserved_example =
    check_ready_unserved plain_codec answering (at_time 9) getting
      (new_server (epoch + 50) 0 0 saved_alone 8) jwt (epoch + 7_200 * second) refl refl refl refl
      refl refl (omega arith)
