-- ===== src/Shim/Autostart.antt =====
-- pkg/shim/autostart_common.go and autostart.go (the Unix build): the start of a daemon, guarded by
-- a directory that one shim alone can make.
mod Environment
mod Started
pub mod Waits
mod Herd
mod Examples
use kubelogin_daemon.Prelude.{
  ℕ, zero, suc, ◌+◌, ◌*◌, Bool, true, false, Option, none, some, List, [], ◌∷◌, ltb, if◌then◌else◌,
}
use kubelogin_daemon.Text.{Text, codes}
use kubelogin_daemon.Strings.{assign}
use kubelogin_daemon.Refresher.{Result, err, ok}
use kubelogin_daemon.Shim.Requests.{second, millisecond}

abbrev pub env_whitelist : List Text
env_whitelist =
    codes "HOME"
    ∷ codes "USER"
    ∷ codes "LOGNAME"
    ∷ codes "PATH"
    ∷ codes "SHELL"
    ∷ codes "XDG_RUNTIME_DIR"
    ∷ codes "USERPROFILE"
    ∷ codes "LOCALAPPDATA"
    ∷ codes "TEMP"
    ∷ codes "TMP"
    ∷ codes "SystemRoot"
    ∷ codes "APPDATA"
    ∷ codes "HOMEDRIVE"
    ∷ codes "HOMEPATH"
    ∷ codes "LANG"
    ∷ codes "LC_ALL"
    ∷ codes "LC_CTYPE"
    ∷ codes "HTTPS_PROXY"
    ∷ codes "HTTP_PROXY"
    ∷ codes "NO_PROXY"
    ∷ codes "https_proxy"
    ∷ codes "http_proxy"
    ∷ codes "no_proxy"
    ∷ []

-- The variables of the child, of the keys that the parent has.
unfoldable pub kept_env : (Text → Option Text) → List Text → List Text
kept_env env [] = []
kept_env env (key ∷ keys) = elim (env key) [
  | none ↦ kept_env env keys
  | some val ↦ assign key val ∷ kept_env env keys
]

unfoldable pub sanitized_env : (Text → Option Text) → List Text
unfolding kept_env
sanitized_env env = kept_env env env_whitelist

pub data StartError : Type 0 where
  socket_is_symlink not_a_socket : StartError
  create_dir guard_failed find_executable eval_symlinks start_process : Text → StartError
  not_ready : ℕ → StartError
  did_not_start : StartError → StartError

pub data SocketFile : Type 0 where
  no_file symbolic_link socket_file other_file : SocketFile

pub data Mkdir : Type 0 where
  made exists : Mkdir
  mkdir_failed : Text → Mkdir

-- The calls of the operating system. `make_guard` and `remove_guard` are on the directory
-- `.starting`, `guard_age` is the time since its modification, if `os.Stat` finds it, and `delay`
-- is the random part of a wait.
pub record StartOs (W : Type 0) : Type 0 where
  pub probe_alive : W → W × Bool
  pub socket : W → SocketFile
  pub remove_socket : W → W
  pub make_dir : W → W × Mkdir
  pub make_guard : W → W × Mkdir
  pub guard_age : W → Option ℕ
  pub remove_guard : W → W
  pub executable : Result Text
  pub resolve_links : Text → Result Text
  pub fork : Text → List Text → W → W × Option Text
  pub env : Text → Option Text
  pub delay : W → ℕ
  pub sleep : ℕ → W → W

-- The guard of another shim is replaced once it is older than ten seconds.
unfoldable pub is_old : Option ℕ → Bool
is_old none = false
is_old (some age) = ltb (10 * second) age

module _ {W : Type 0} (os : StartOs W) where
  unfoldable pub cleanup_stale_unix_socket : W → W × Option StartError
  cleanup_stale_unix_socket w = elim (os.socket w) [
    | no_file ↦ (w, none)
    | symbolic_link ↦ (w, some socket_is_symlink)
    | other_file ↦ (w, some not_a_socket)
    | socket_file ↦ (os.remove_socket w, none)
  ]

  -- The rounds that are left, and how many there were.
  unfoldable pub wait_rounds : ℕ → ℕ → W → W × Option StartError
  wait_rounds all zero w = (w, some (not_ready all))
  wait_rounds all (suc n) w =
      let (probed, alive) = os.probe_alive (os.sleep (100 * millisecond + os.delay w) w) in
      elim alive [ true ↦ (probed, none) | false ↦ wait_rounds all n probed ]

  unfoldable pub wait_for_ready : ℕ → W → W × Option StartError
  unfolding wait_rounds
  wait_for_ready n w = wait_rounds n n w

  unfoldable pub not_started : W × Option StartError → W × Option StartError
  not_started (w, none) = (w, none)
  not_started (w, some e) = (w, some (did_not_start e))

  unfoldable pub after_fork : W × Option Text → W × Option StartError
  unfolding wait_for_ready not_started
  after_fork (w, some e) = (w, some (start_process e))
  after_fork (w, none) = not_started (wait_for_ready 5 w)

  unfoldable pub fork_resolved : Result Text → W → W × Option StartError
  unfolding after_fork sanitized_env
  fork_resolved (err e) w = (w, some (eval_symlinks e))
  fork_resolved (ok path) w = after_fork (os.fork path (sanitized_env os.env) w)

  unfoldable pub fork_executable : Result Text → W → W × Option StartError
  unfolding fork_resolved
  fork_executable (err e) w = (w, some (find_executable e))
  fork_executable (ok path) w = fork_resolved (os.resolve_links path) w

  unfoldable pub release_guard : W × Option StartError → W × Option StartError
  release_guard (w, failure) = (os.remove_guard w, failure)

  -- The start by the owner of the guard, which goes at its end whatever happens.
  unfoldable pub fork_daemon : W → W × Option StartError
  unfolding fork_executable release_guard
  fork_daemon w = release_guard (fork_executable os.executable w)

  unfoldable pub after_retry : W × Mkdir → W × Option StartError
  unfolding fork_daemon
  after_retry (w, made) = fork_daemon w
  after_retry (w, exists) = wait_for_ready 10 w
  after_retry (w, mkdir_failed e) = wait_for_ready 10 w

  unfoldable pub after_guard : W × Mkdir → W × Option StartError
  unfolding after_retry is_old
  after_guard (w, made) = fork_daemon w
  after_guard (w, mkdir_failed e) = (w, some (guard_failed e))
  after_guard (w, exists) =
      if is_old (os.guard_age w)
      then after_retry (os.make_guard (os.remove_guard w))
      else wait_for_ready 10 w

  unfoldable pub after_dir : W × Mkdir → W × Option StartError
  unfolding after_guard
  after_dir (w, mkdir_failed e) = (w, some (create_dir e))
  after_dir (w, made) = after_guard (os.make_guard w)
  after_dir (w, exists) = after_guard (os.make_guard w)

  unfoldable pub after_cleanup : W × Option StartError → W × Option StartError
  unfolding after_dir
  after_cleanup (w, some e) = (w, some e)
  after_cleanup (w, none) = after_dir (os.make_dir w)

  unfoldable pub after_probe : W × Bool → W × Option StartError
  unfolding cleanup_stale_unix_socket after_cleanup
  after_probe (w, true) = (w, none)
  after_probe (w, false) = after_cleanup (cleanup_stale_unix_socket w)

  unfoldable pub auto_start_daemon : W → W × Option StartError
  unfolding after_probe
  auto_start_daemon w = after_probe (os.probe_alive w)
