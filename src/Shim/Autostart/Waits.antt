-- ===== src/Shim/Autostart/Waits.antt =====
-- pkg/shim/autostart_common.go: how long a shim sleeps while it starts a daemon, or waits for
-- another shim to do so.
use kubelogin_daemon.Prelude.{
  ℕ, zero, suc, ◌+◌, ◌*◌, ◌≤◌, Bool, true, false, Option, none, some, List, ◌≡◌, refl, arith,
  if◌then◌else◌,
}
use kubelogin_daemon.Text.{Text}
use kubelogin_daemon.Refresher.{Result, err, ok}
use kubelogin_daemon.Shim.Requests.{millisecond}
use kubelogin_daemon.Shim.Autostart.{
  StartOs, StartError, SocketFile, no_file, symbolic_link, other_file, socket_file, Mkdir, made,
  exists, mkdir_failed, is_old, sanitized_env, wait_rounds, wait_for_ready, not_started, after_fork,
  fork_resolved, fork_executable, release_guard, fork_daemon, after_retry, after_guard, after_dir,
  after_cleanup, cleanup_stale_unix_socket, after_probe, auto_start_daemon,
}

-- The time that was slept so far in each world: a sleep adds its length to it, no other call adds
-- to it, and the random part of a wait is below 400 ms, as `rand.Int63n` draws it.
pub record SleepLaws {W : Type 0} (os : StartOs W) (slept : W → ℕ) : Type 0 where
  pub sleep_adds : (n : ℕ) (w : W) → slept (os.sleep n w) ≤ n + slept w
  pub probe_adds : (w : W) → slept (os.probe_alive w).0 ≤ slept w
  pub socket_adds : (w : W) → slept (os.remove_socket w) ≤ slept w
  pub dir_adds : (w : W) → slept (os.make_dir w).0 ≤ slept w
  pub guard_adds : (w : W) → slept (os.make_guard w).0 ≤ slept w
  pub removal_adds : (w : W) → slept (os.remove_guard w) ≤ slept w
  pub fork_adds : (path : Text) (env : List Text) (w : W) → slept (os.fork path env w).0 ≤ slept w
  pub short_delay : (w : W) → os.delay w ≤ 400 * millisecond

-- The longest wait of a round.
abbrev round : ℕ
round = 500 * millisecond

module _ {W : Type 0} (os : StartOs W) (slept : W → ℕ) (laws : SleepLaws os slept) where
  -- A result after at most so many more rounds.
  abbrev IsWithin : ℕ → W → W × Option StartError → Type 0
  IsWithin n w r = slept r.0 ≤ n * round + slept w

  wait_rounds-IsWithin : (all n : ℕ) (w : W) → IsWithin n w (wait_rounds os all n w)
  unfolding wait_rounds
  wait_rounds-IsWithin all zero w = omega arith
  wait_rounds-IsWithin all (suc n) w =
      let pause = 100 * millisecond + os.delay w in
      let short = laws.short_delay w in
      let added = laws.sleep_adds pause w in
      let same = laws.probe_adds (os.sleep pause w) in
      probed (os.probe_alive (os.sleep pause w)) (omega arith)
        (wait_rounds-IsWithin all n (os.probe_alive (os.sleep pause w)).0)
    where
      probed :
          (r : W × Bool)
          → slept r.0 ≤ round + slept w
          → IsWithin n r.0 (wait_rounds os all n r.0)
          → IsWithin (suc n) w (elim r.1 [ true ↦ (r.0, none) | false ↦ wait_rounds os all n r.0 ])
      probed (w', true) first rest = omega (arith, first)
      probed (w', false) first rest = omega (arith, first, rest)

  wait_for_ready-IsWithin : (n : ℕ) (w : W) → IsWithin n w (wait_for_ready os n w)
  unfolding wait_for_ready
  wait_for_ready-IsWithin n w = wait_rounds-IsWithin n n w

  not_started-IsWithin :
      (w : W) (r : W × Option StartError) → IsWithin 5 w r → IsWithin 5 w (not_started os r)
  unfolding not_started
  not_started-IsWithin w (w', none) h = h
  not_started-IsWithin w (w', some e) h = h

  after_fork-IsWithin :
      (w : W) (r : W × Option Text) → slept r.0 ≤ slept w → IsWithin 5 w (after_fork os r)
  unfolding after_fork
  after_fork-IsWithin w (w', some e) h = omega arith
  after_fork-IsWithin w (w', none) h =
      let waited = wait_for_ready-IsWithin 5 w' in
      not_started-IsWithin w (wait_for_ready os 5 w') (omega arith)

  fork_resolved-IsWithin : (r : Result Text) (w : W) → IsWithin 5 w (fork_resolved os r w)
  unfolding fork_resolved
  fork_resolved-IsWithin (err e) w = omega arith
  fork_resolved-IsWithin (ok path) w =
      after_fork-IsWithin w (os.fork path (sanitized_env os.env) w)
        (laws.fork_adds path (sanitized_env os.env) w)

  fork_executable-IsWithin : (r : Result Text) (w : W) → IsWithin 5 w (fork_executable os r w)
  unfolding fork_executable
  fork_executable-IsWithin (err e) w = omega arith
  fork_executable-IsWithin (ok path) w = fork_resolved-IsWithin (os.resolve_links path) w

  release_guard-IsWithin :
      (w : W) (r : W × Option StartError) → IsWithin 5 w r → IsWithin 5 w (release_guard os r)
  unfolding release_guard
  release_guard-IsWithin w (w', failure) h = let same = laws.removal_adds w' in omega arith

  fork_daemon-IsWithin : (w : W) → IsWithin 5 w (fork_daemon os w)
  unfolding fork_daemon
  fork_daemon-IsWithin w =
      release_guard-IsWithin w (fork_executable os os.executable w)
        (fork_executable-IsWithin os.executable w)

  after_retry-IsWithin :
      (w : W) (r : W × Mkdir) → slept r.0 ≤ slept w → IsWithin 10 w (after_retry os r)
  unfolding after_retry
  after_retry-IsWithin w (w', made) h = let waited = fork_daemon-IsWithin w' in omega arith
  after_retry-IsWithin w (w', exists) h = let waited = wait_for_ready-IsWithin 10 w' in omega arith
  after_retry-IsWithin w (w', mkdir_failed e) h =
      let waited = wait_for_ready-IsWithin 10 w' in omega arith

  after_guard-IsWithin :
      (w : W) (r : W × Mkdir) → slept r.0 ≤ slept w → IsWithin 10 w (after_guard os r)
  unfolding after_guard
  after_guard-IsWithin w (w', made) h = let waited = fork_daemon-IsWithin w' in omega arith
  after_guard-IsWithin w (w', mkdir_failed e) h = omega arith
  after_guard-IsWithin w (w', exists) h = choose (is_old (os.guard_age w'))
    where
      choose :
          (b : Bool)
          → IsWithin 10 w (
              if b
              then after_retry os (os.make_guard (os.remove_guard w'))
              else wait_for_ready os 10 w')
      choose true =
          let removed = laws.removal_adds w' in
          let again = laws.guard_adds (os.remove_guard w') in
          after_retry-IsWithin w (os.make_guard (os.remove_guard w')) (omega arith)
      choose false = let waited = wait_for_ready-IsWithin 10 w' in omega arith

  after_dir-IsWithin :
      (w : W) (r : W × Mkdir) → slept r.0 ≤ slept w → IsWithin 10 w (after_dir os r)
  unfolding after_dir
  after_dir-IsWithin w (w', mkdir_failed e) h = omega arith
  after_dir-IsWithin w (w', made) h =
      let guarded = laws.guard_adds w' in after_guard-IsWithin w (os.make_guard w') (omega arith)
  after_dir-IsWithin w (w', exists) h =
      let guarded = laws.guard_adds w' in after_guard-IsWithin w (os.make_guard w') (omega arith)

  after_cleanup-IsWithin :
      (w : W) (r : W × Option StartError) → slept r.0 ≤ slept w → IsWithin 10 w (after_cleanup os r)
  unfolding after_cleanup
  after_cleanup-IsWithin w (w', some e) h = omega arith
  after_cleanup-IsWithin w (w', none) h =
      let listed = laws.dir_adds w' in after_dir-IsWithin w (os.make_dir w') (omega arith)

  cleanup_adds :
      (w : W) (file : SocketFile)
      → os.socket w ≡ file
      → slept (cleanup_stale_unix_socket os w).0 ≤ slept w
  unfolding cleanup_stale_unix_socket
  cleanup_adds w no_file e = rw (e, cleanup_stale_unix_socket) (omega arith)
  cleanup_adds w symbolic_link e = rw (e, cleanup_stale_unix_socket) (omega arith)
  cleanup_adds w other_file e = rw (e, cleanup_stale_unix_socket) (omega arith)
  cleanup_adds w socket_file e = rw (e, cleanup_stale_unix_socket) (laws.socket_adds w)

  after_probe-IsWithin :
      (w : W) (r : W × Bool) → slept r.0 ≤ slept w → IsWithin 10 w (after_probe os r)
  unfolding after_probe
  after_probe-IsWithin w (w', true) h = omega arith
  after_probe-IsWithin w (w', false) h =
      let cleaned = cleanup_adds w' (os.socket w') refl in
      after_cleanup-IsWithin w (cleanup_stale_unix_socket os w') (omega arith)

  -- A start of a daemon comes to an end after five seconds of sleep at most, whether the shim forks
  -- the daemon or waits for another one's, and whatever the calls of the operating system return.
  -- Only its sleeps count, each with a random part of at most 400 ms.
  pub auto_start_daemon_waits : (w : W) → slept (auto_start_daemon os w).0 ≤ 10 * round + slept w
  unfolding auto_start_daemon
  auto_start_daemon_waits w = after_probe-IsWithin w (os.probe_alive w) (laws.probe_adds w)
