-- ===== src/Cli/Runs.antt =====
-- The theorems on `login`, `check` and `clean` at concrete worlds.
use kubelogin_daemon.Prelude.{◌≡◌, refl, Bool, true, false, none, some, [], inr, if◌then◌else◌}
use kubelogin_daemon.Text.{Text, codes, text_eq}
use kubelogin_daemon.Persist.Files.{Fs, Kind}
use kubelogin_daemon.Persist.{load_persisted_token, no_token}
use kubelogin_daemon.Persist.Loading.{no_read_faults}
use kubelogin_daemon.Persist.Samples.{plain_codec}
use kubelogin_daemon.Refresher.{TokenSet, ok}
use kubelogin_daemon.Ipc.{Status, Command, response}
use kubelogin_daemon.Shim.Requests.{Os, Session, absent, send_request}
use kubelogin_daemon.Cli.Flags.{no_flags}
use kubelogin_daemon.Cli.Login.{LoginOs, authenticated, run_login}
use kubelogin_daemon.Cli.Settled.{IsSettled, run_login-IsSettled}
use kubelogin_daemon.Cli.Clean.{clean_tokens, clean_then_load, is_token_name}
use kubelogin_daemon.Cli.Reports.{holds, run_check, check_answer}
use kubelogin_daemon.Cli.Exits.{IsAnswered, run_check-IsAnswered}

-- A daemon that is ready and grants everything, over a world that does not change.
abbrev granting : Os Bool
granting = record {
  now = λ w. 1;
  own_pid = 5;
  nonce_file = λ w. absent;
  exchange = λ req dial limit w.
      (w, inr (record (response Status.success) { ready = some true; pid = 9 }));
  auto_start = λ w. (w, none);
  probe_alive = λ w. (w, w);
  kill = λ pid w. (false, true);
  sleep = λ n w. w;
}

abbrev key : Text
key = codes "ab12"

abbrev tokens : TokenSet
tokens = record { id_token = codes "id"; refresh_token = codes "rt"; expiry = 7 }

abbrev with_provider : LoginOs Bool
with_provider = record {
  checksum = λ k. ok key;
  socket_pid = λ w. 0;
  perform_auth = λ provider grant options w. (w, authenticated tokens);
}

abbrev at_start : Session Bool
at_start = record { world = true; calls = [] }

run_login-IsSettled_example :
    IsSettled granting with_provider
      (no_flags [])
      key
      (run_login granting with_provider (no_flags []) at_start)
run_login-IsSettled_example =
    run_login-IsSettled granting with_provider (no_flags []) key at_start refl

run_check-IsAnswered_example :
    IsAnswered Command.check key
      (λ t. holds t.ready ≡ true)
      (run_check granting (λ k. ok key) true (no_flags []) at_start).0.calls
unfolding run_check send_request check_answer
run_check-IsAnswered_example =
    run_check-IsAnswered granting (λ k. ok key) true (no_flags []) key at_start refl refl

abbrev one_file : Fs
one_file name =
    if text_eq name (codes "ab12.json")
    then some record { kind = Kind.regular; bytes = []; is_private = true; mod_time = 0 }
    else none

clean_then_load_example :
    (load_persisted_token plain_codec no_read_faults key (clean_tokens (λ name. false) one_file)
      ≡ (clean_tokens (λ name. false) one_file, no_token))
    × (clean_tokens (λ name. false) one_file (codes "nonce") ≡ one_file (codes "nonce"))
unfolding text_eq is_token_name
clean_then_load_example =
    clean_then_load plain_codec no_read_faults (λ name. false) one_file key (codes "nonce") refl
      refl refl refl
