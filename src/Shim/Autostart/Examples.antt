-- ===== src/Shim/Autostart/Examples.antt =====
-- The theorems on the start of a daemon at concrete worlds.
use kubelogin_daemon.Prelude.{
  ◌⊎◌, length, Option, some, ◌≤◌, ◌≡◌, ◌+◌, ◌*◌, refl, Bool, true, false, none, All, if◌then◌else◌,
}
use kubelogin_daemon.Text.{Text, codes, text_eq}
use kubelogin_daemon.Refresher.{ok}
use kubelogin_daemon.Token.{second}
use kubelogin_daemon.Shim.Autostart.Herd.{
  HasOld, Herd, passes, tries, removes_old, crashes, Run, here, onward, make_guard, see_old,
  remove_old, sees_old, is_in, crash, without, guard_age, no_starter, Run-starters,
}
use kubelogin_daemon.Shim.Autostart.{
  is_old, no_file, made, exists, StartOs, env_whitelist, sanitized_env, auto_start_daemon,
}
use kubelogin_daemon.Shim.Autostart.Started.{auto_start_daemon-up}
use kubelogin_daemon.Shim.Autostart.Environment.{IsPassedOn, sanitized_env-IsPassedOn}

-- A shim that makes the guard and crashes. Eleven seconds later two shims find it old; one removes
-- it and makes its own, which the other then removes, to make one again: both start a daemon.
abbrev crashed : Herd
crashed = crash 7 (make_guard 7 no_starter)

abbrev much_later : Herd
much_later = record crashed { now = crashed.now + 11 * second }

abbrev both_saw : Herd
both_saw = see_old 9 (see_old 8 much_later)

abbrev first_started : Herd
first_started = make_guard 8 (remove_old 8 both_saw)

abbrev crowded : Herd
crowded = make_guard 9 (remove_old 9 first_started)

crowd : Run no_starter crowded
unfolding make_guard remove_old without is_in is_old guard_age
crowd =
    onward
      (onward
        (onward
          (onward
            (onward
              (onward
                (onward
                  (onward (onward (here no_starter) (tries no_starter 7))
                    (crashes (make_guard 7 no_starter) 7))
                  (passes crashed (11 * second)))
                (sees_old much_later 8 refl))
              (sees_old (see_old 8 much_later) 9 refl))
            (removes_old both_saw 8 refl))
          (tries (remove_old 8 both_saw) 8))
        (removes_old first_started 9 refl))
      (tries (remove_old 9 first_started) 9)

two_start : (length crowded.starters ≡ 2) × (crowded.removals ≡ 2)
unfolding make_guard remove_old without
two_start = (refl, refl)

Run-starters_example :
    (length crowded.starters ≤ 1 + crowded.removals) × ((crowded.removals ≡ 0) ⊎ HasOld crowd)
Run-starters_example = Run-starters crowded crowd

abbrev some_env : Text → Option Text
some_env key = if text_eq key (codes "HOME") then some (codes "/root") else some (codes "secret")

sanitized_env-IsPassedOn_example : All (IsPassedOn some_env env_whitelist) (sanitized_env some_env)
sanitized_env-IsPassedOn_example = sanitized_env-IsPassedOn some_env

-- A world that says whether the daemon is up and whether the guard is there.
abbrev Booting : Type 0
Booting = Bool × Bool

abbrev booting_os : StartOs Booting
booting_os = record {
  probe_alive = λ w. (w, w.0);
  socket = λ w. no_file;
  remove_socket = λ w. w;
  make_dir = λ w. (w, exists);
  make_guard = λ w. if w.1 then (w, exists) else ((w.0, true), made);
  guard_age = λ w. some 0;
  remove_guard = λ w. (w.0, false);
  executable = ok (codes "/usr/bin/kubelogin-daemon");
  resolve_links = λ path. ok path;
  fork = λ path env w. ((true, w.1), none);
  env = some_env;
  delay = λ w. 0;
  sleep = λ n w. w;
}

booted : (auto_start_daemon booting_os (false, false)).1 ≡ none
unfolding auto_start_daemon
booted = refl

auto_start_daemon-up_example : (auto_start_daemon booting_os (false, false)).0.0 ≡ true
auto_start_daemon-up_example =
    auto_start_daemon-up booting_os (λ w. w.0 ≡ true) (λ w e. e) (λ w e. e) (false, false) booted
