-- ===== src/Shim/Examples.antt =====
-- The theorems on the shim at concrete worlds.
use kubelogin_daemon.Prelude.{
  ℕ, ◌≤◌, ◌+◌, ◌*◌, refl, Bool, true, false, none, [], inl, inr, arith, All, if◌then◌else◌,
}
use kubelogin_daemon.Text.{Text, codes}
use kubelogin_daemon.State.{Time}
use kubelogin_daemon.Persist.Files.{Fs}
use kubelogin_daemon.Persist.Loading.{no_read_faults}
use kubelogin_daemon.Persist.Samples.{plain_codec, no_faults}
use kubelogin_daemon.Refresher.{ok}
use kubelogin_daemon.Refresher.Samples.{answering, plain_provider, plain_refresher}
use kubelogin_daemon.Token.{second, get_token}
use kubelogin_daemon.Ipc.{Request, Response, Command, Status, response, error}
use kubelogin_daemon.Server.{Env, new_server}
use kubelogin_daemon.Server.Managers.{ServerInv}
use kubelogin_daemon.Shim.Requests.{Os, connection_refused, absent, millisecond}
use kubelogin_daemon.Shim.Client.{get_token_from_daemon}
use kubelogin_daemon.Shim.Calls.{sends, starts, kills}
use kubelogin_daemon.Shim.Bounds.{with_starts, CallLaws, get_token_bounds}
use kubelogin_daemon.Shim.Autostart.{StartOs, no_file, made}
use kubelogin_daemon.Shim.Autostart.Waits.{SleepLaws}
use kubelogin_daemon.Shim.Permitted.{IsPermitted, get_token-IsPermitted}
use kubelogin_daemon.Shim.Served.{Running, exchange_with}

abbrev empty_dir : Fs
empty_dir name = none

-- 1970, in nanoseconds.
abbrev epoch : Time
epoch = 62_135_596_800 * second

abbrev at_start : Env
at_start = record {
  now = epoch + second;
  later = epoch + 2 * second;
  faults = no_faults;
  suffix = codes "77";
  read_faults = no_read_faults;
}

abbrev key : Text
key = codes "ab12"

abbrev jwt : Text
jwt = codes "h.e30.s"

abbrev request : Command → Request
request c = record {
  version = 2;
  command = c;
  cache_key = key;
  nonce = [];
  issuer_url = plain_provider.issuer_url;
  client_id = plain_provider.client_id;
  client_secret = plain_provider.client_secret;
  extra_scopes = plain_provider.extra_scopes;
  extra_params = [];
  use_access_token = false;
  request_headers = [];
  redirect_url = [];
  force_refresh = false;
  tls_config = plain_refresher.tls_config;
  id_token = jwt;
  refresh_token = codes "rt";
}

new-ServerInv : ServerInv (epoch + second) (new_server (epoch + 1) 0 0 empty_dir 7)
unfolding new_server
new-ServerInv = record {
  counted = record { unique = tt; exact = refl; capped = omega arith };
  states = record { unique = tt; sound = tt };
}

abbrev fresh : Running
fresh = record {
  env = at_start;
  server = new_server (epoch + 1) 0 0 empty_dir 7;
  started = omega arith;
  ordered = omega arith;
  inv = new-ServerInv;
}

-- A daemon that has been given a token.
abbrev stored : Running
stored = (exchange_with plain_codec answering (request Command.store_token) fresh).0

abbrev quiet_os : Os Running
quiet_os = record {
  now = λ d. d.env.now;
  own_pid = 5;
  nonce_file = λ d. absent;
  exchange = λ req dial limit d. (d, inl connection_refused);
  auto_start = λ d. (d, none);
  probe_alive = λ d. (d, true);
  kill = λ pid d. (d, true);
  sleep = λ n d. d;
}

-- An old daemon, which answers with another version until it is killed.
abbrev mismatch : Response
mismatch = record (response error) { daemon_version = 1; pid = 9 }

abbrev old_os : Os Bool
old_os = record {
  now = λ w. 1;
  own_pid = 5;
  nonce_file = λ w. absent;
  exchange = λ req dial limit w. (w, if w then inr mismatch else inr (response Status.success));
  auto_start = λ w. (w, none);
  probe_alive = λ w. (w, w);
  kill = λ pid w. (false, true);
  sleep = λ n w. w;
}

-- The same daemon, in a world that adds up the time that was slept.
abbrev Counting : Type 0
Counting = Bool × ℕ

abbrev counting_os : Os Counting
counting_os = record {
  now = λ w. 1;
  own_pid = 5;
  nonce_file = λ w. absent;
  exchange = λ req dial limit w. (w, if w.0 then inr mismatch else inr (response Status.success));
  auto_start = λ w. (w, none);
  probe_alive = λ w. (w, w.0);
  kill = λ pid w. ((false, w.1), true);
  sleep = λ n w. (w.0, n + w.1);
}

abbrev counting_start : StartOs Counting
counting_start = record {
  probe_alive = λ w. (w, false);
  socket = λ w. no_file;
  remove_socket = λ w. w;
  make_dir = λ w. (w, made);
  make_guard = λ w. (w, made);
  guard_age = λ w. none;
  remove_guard = λ w. w;
  executable = ok [];
  resolve_links = λ path. ok path;
  fork = λ path env w. (w, none);
  env = λ key. none;
  delay = λ w. 0;
  sleep = λ n w. (w.0, n + w.1);
}

counting_start-SleepLaws : SleepLaws counting_start (λ w. w.1)
counting_start-SleepLaws = record {
  sleep_adds = λ n w. omega arith;
  probe_adds = λ w. omega arith;
  socket_adds = λ w. omega arith;
  dir_adds = λ w. omega arith;
  guard_adds = λ w. omega arith;
  removal_adds = λ w. omega arith;
  fork_adds = λ path env w. omega arith;
  short_delay = λ w. omega arith;
}

counting_os-CallLaws : CallLaws counting_os (λ w. w.1)
counting_os-CallLaws = record {
  exchange_adds = λ req dial limit w. omega arith;
  alive_adds = λ w. omega arith;
  kill_adds = λ pid w. omega arith;
  pause_adds = λ n w. omega arith;
}

get_token-IsPermitted_example :
    All
      (IsPermitted 5 key)
      (get_token_from_daemon old_os key
        (request Command.get_token)
        (record { world = true; calls = [] })).0.calls
get_token-IsPermitted_example =
    get_token-IsPermitted old_os key (request Command.get_token)
      (record { world = true; calls = [] }) tt

get_token_bounds_example :
    let end =
      (get_token_from_daemon
        (with_starts (λ e. []) counting_start counting_os)
        key
        (request Command.get_token)
        (record { world = (true, 0); calls = [] })).0 in
    (sends end.calls ≤ 5)
    × (starts end.calls ≤ 2)
    × (kills end.calls ≤ 1)
    × (end.world.1 ≤ 11_400 * millisecond)
get_token_bounds_example =
    get_token_bounds (λ e. []) counting_start counting_os (λ w. w.1) counting_start-SleepLaws
      counting_os-CallLaws key (request Command.get_token)
      (record { world = (true, 0); calls = [] })
