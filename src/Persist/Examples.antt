-- ===== src/Persist/Examples.antt =====
-- The theorems on pkg/daemon/persist.go at concrete directories, with a codec that stands for JSON.
use kubelogin_daemon.Prelude.{◌≡◌, refl, true, none, some, arith, take}
use kubelogin_daemon.Text.{Text, codes, text_eq}
use kubelogin_daemon.Persist.Files.{Fs, Kind, run_calls, put}
use kubelogin_daemon.Persist.{
  token_bytes, persist_token, token_file, temp_file, loaded, load_failed, corrupt,
  load_persisted_token,
}
use kubelogin_daemon.Persist.Samples.{plain_codec, no_faults}
use kubelogin_daemon.Persist.Atomic.{Outcome, IsWhole, persist_token_crash, persist_token_result}
use kubelogin_daemon.Persist.Loading.{
  Verdict, no_read_faults, load-persist_token, load_persisted_token_heals,
}

abbrev key : Text
key = codes "ab12"

abbrev jwt : Text
jwt = codes "h.p.s"

abbrev empty_dir : Fs
empty_dir name = none

persist_token_crash_example :
    IsWhole empty_dir
      (temp_file key (codes "77"))
      (token_file key)
      (token_bytes plain_codec jwt (codes "rt"))
      (run_calls 5
        (take 4 (persist_token plain_codec no_faults (codes "77") key jwt (codes "rt")).0)
        empty_dir)
persist_token_crash_example =
    persist_token_crash plain_codec no_faults (codes "77") key jwt (codes "rt") 5 empty_dir 4 refl

persist_token_result_example :
    let (calls, e) = persist_token plain_codec no_faults (codes "77") key jwt (codes "rt") in
    Outcome plain_codec no_faults
      (codes "77")
      key
      jwt
      (codes "rt")
      5
      empty_dir
      (run_calls 5 calls empty_dir)
      e
persist_token_result_example =
    persist_token_result plain_codec no_faults (codes "77") key jwt (codes "rt") 5 empty_dir refl

load-persist_token_example :
    let calls = (persist_token plain_codec no_faults (codes "77") key jwt (codes "rt")).0 in
    load_persisted_token plain_codec no_read_faults key (run_calls 5 calls empty_dir)
    ≡ (run_calls 5 calls empty_dir, loaded jwt (codes "rt"))
unfolding persist_token
load-persist_token_example =
    load-persist_token plain_codec no_faults (codes "77") key jwt (codes "rt") 5 empty_dir refl refl
      refl (omega arith) refl

abbrev corrupt_dir : Fs
corrupt_dir =
    put (token_file key)
      (some (record { kind = Kind.regular; bytes = codes "{"; is_private = true; mod_time = 3 }))
      empty_dir

load_persisted_token_heals_example :
    Verdict plain_codec no_read_faults key
      (codes "{")
      corrupt_dir
      (load_persisted_token plain_codec no_read_faults key corrupt_dir)
unfolding text_eq
load_persisted_token_heals_example =
    load_persisted_token_heals plain_codec no_read_faults key
      (record { kind = Kind.regular; bytes = codes "{"; is_private = true; mod_time = 3 })
      corrupt_dir refl refl refl refl refl

-- The corrupt file is reported and deleted.
corrupt_dir_loads :
    (load_persisted_token plain_codec no_read_faults key corrupt_dir).1 ≡ load_failed corrupt
unfolding load_persisted_token text_eq
corrupt_dir_loads = refl
