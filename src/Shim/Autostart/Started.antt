-- ===== src/Shim/Autostart/Started.antt =====
-- pkg/shim/autostart_common.go: what it means that a shim has started a daemon.
use kubelogin_daemon.Prelude.{
  ℕ, zero, suc, ◌+◌, ◌*◌, ◌≡◌, refl, Bool, true, false, Option, none, some, if◌then◌else◌,
}
use kubelogin_daemon.Text.{Text}
use kubelogin_daemon.Refresher.{Result, err, ok}
use kubelogin_daemon.Shim.Requests.{millisecond}
use kubelogin_daemon.Shim.Autostart.{
  StartOs, StartError, Mkdir, made, exists, mkdir_failed, is_old, sanitized_env, wait_rounds,
  wait_for_ready, not_started, after_fork, fork_resolved, fork_executable, release_guard,
  fork_daemon, after_retry, after_guard, after_dir, after_cleanup, cleanup_stale_unix_socket,
  after_probe, auto_start_daemon,
}

module _ {W : Type 0} (os : StartOs W) (IsUp : W → Type 0)
    (probe-IsUp : (w : W) → (os.probe_alive w).1 ≡ true → IsUp (os.probe_alive w).0)
    (remove-IsUp : (w : W) → IsUp w → IsUp (os.remove_guard w)) where
  -- A result whose success means that the daemon is up.
  abbrev IsSound : W × Option StartError → Type 0
  IsSound (w, failure) = failure ≡ none → IsUp w

  wait_rounds-IsSound : (all n : ℕ) (w : W) → IsSound (wait_rounds os all n w)
  unfolding wait_rounds
  wait_rounds-IsSound all zero w = λ e. cc
  wait_rounds-IsSound all (suc n) w =
      probed (os.probe_alive (os.sleep (100 * millisecond + os.delay w) w))
        (probe-IsUp (os.sleep (100 * millisecond + os.delay w) w))
        (wait_rounds-IsSound all n (os.probe_alive (os.sleep (100 * millisecond + os.delay w) w)).0)
    where
      probed :
          (r : W × Bool)
          → (r.1 ≡ true → IsUp r.0)
          → IsSound (wait_rounds os all n r.0)
          → IsSound (elim r.1 [ true ↦ (r.0, none) | false ↦ wait_rounds os all n r.0 ])
      probed (w', true) up rest = λ e. up refl
      probed (w', false) up rest = rest

  wait_for_ready-IsSound : (n : ℕ) (w : W) → IsSound (wait_for_ready os n w)
  unfolding wait_for_ready
  wait_for_ready-IsSound n w = wait_rounds-IsSound n n w

  not_started-IsSound : (r : W × Option StartError) → IsSound r → IsSound (not_started os r)
  unfolding not_started
  not_started-IsSound (w, none) up = up
  not_started-IsSound (w, some e) up = λ h. cc

  after_fork-IsSound : (r : W × Option Text) → IsSound (after_fork os r)
  unfolding after_fork
  after_fork-IsSound (w, some e) = λ h. cc
  after_fork-IsSound (w, none) =
      not_started-IsSound (wait_for_ready os 5 w) (wait_for_ready-IsSound 5 w)

  fork_resolved-IsSound : (r : Result Text) (w : W) → IsSound (fork_resolved os r w)
  unfolding fork_resolved
  fork_resolved-IsSound (err e) w = λ h. cc
  fork_resolved-IsSound (ok path) w = after_fork-IsSound (os.fork path (sanitized_env os.env) w)

  fork_executable-IsSound : (r : Result Text) (w : W) → IsSound (fork_executable os r w)
  unfolding fork_executable
  fork_executable-IsSound (err e) w = λ h. cc
  fork_executable-IsSound (ok path) w = fork_resolved-IsSound (os.resolve_links path) w

  release_guard-IsSound : (r : W × Option StartError) → IsSound r → IsSound (release_guard os r)
  unfolding release_guard
  release_guard-IsSound (w, failure) up e = remove-IsUp w (up e)

  fork_daemon-IsSound : (w : W) → IsSound (fork_daemon os w)
  unfolding fork_daemon
  fork_daemon-IsSound w =
      release_guard-IsSound (fork_executable os os.executable w)
        (fork_executable-IsSound os.executable w)

  after_retry-IsSound : (r : W × Mkdir) → IsSound (after_retry os r)
  unfolding after_retry
  after_retry-IsSound (w, made) = fork_daemon-IsSound w
  after_retry-IsSound (w, exists) = wait_for_ready-IsSound 10 w
  after_retry-IsSound (w, mkdir_failed e) = wait_for_ready-IsSound 10 w

  after_guard-IsSound : (r : W × Mkdir) → IsSound (after_guard os r)
  unfolding after_guard
  after_guard-IsSound (w, made) = fork_daemon-IsSound w
  after_guard-IsSound (w, mkdir_failed e) = λ h. cc
  after_guard-IsSound (w, exists) = choose (is_old (os.guard_age w))
    where
      choose :
          (b : Bool)
          → IsSound (
              if b
              then after_retry os (os.make_guard (os.remove_guard w))
              else wait_for_ready os 10 w)
      choose true = after_retry-IsSound (os.make_guard (os.remove_guard w))
      choose false = wait_for_ready-IsSound 10 w

  after_dir-IsSound : (r : W × Mkdir) → IsSound (after_dir os r)
  unfolding after_dir
  after_dir-IsSound (w, mkdir_failed e) = λ h. cc
  after_dir-IsSound (w, made) = after_guard-IsSound (os.make_guard w)
  after_dir-IsSound (w, exists) = after_guard-IsSound (os.make_guard w)

  after_cleanup-IsSound : (r : W × Option StartError) → IsSound (after_cleanup os r)
  unfolding after_cleanup
  after_cleanup-IsSound (w, some e) = λ h. cc
  after_cleanup-IsSound (w, none) = after_dir-IsSound (os.make_dir w)

  after_probe-IsSound : (r : W × Bool) → (r.1 ≡ true → IsUp r.0) → IsSound (after_probe os r)
  unfolding after_probe
  after_probe-IsSound (w, true) up = λ e. up refl
  after_probe-IsSound (w, false) up = after_cleanup-IsSound (cleanup_stale_unix_socket os w)

  -- Where a shim reports no error from the start of a daemon, the daemon is up. "Up" is any
  -- predicate that a probe which finds a daemon establishes and that the removal of the guard keeps.
  pub auto_start_daemon-up :
      (w : W) → (auto_start_daemon os w).1 ≡ none → IsUp (auto_start_daemon os w).0
  unfolding auto_start_daemon
  auto_start_daemon-up w = after_probe-IsSound (os.probe_alive w) (probe-IsUp w)
