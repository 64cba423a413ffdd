-- ===== src/Cli/Daemon.antt =====
-- main.go: how the commands stop, kill and restart a daemon. An IPC call returns the daemon's
-- response or nothing; a process number that is not known is 0.
use kubelogin_daemon.Prelude.{ℕ, Bool, not, ◌==◌, Option, none, some, if◌then◌else◌}
use kubelogin_daemon.Text.{Text}
use kubelogin_daemon.Ipc.{Response}

-- `SendHealth`, `findPIDBySocket`, `os.Getpid`, and `os.FindProcess` with `Kill`, whose error it
-- is.
pub record KillEnv : Type 0 where
  pub health : Option Response
  pub socket_pid : ℕ
  pub own_pid : ℕ
  pub kill : ℕ → Option Text

unfoldable pub get_daemon_pid : KillEnv → ℕ
get_daemon_pid env = elim env.health [ none ↦ 0 | some resp ↦ resp.pid ]

pub data KillResult : Type 0 where
  unknown_pid own_process : KillResult
  kill_failed : ℕ → Text → KillResult
  killed : ℕ → KillResult

unfoldable pub kill_pid : KillEnv → ℕ → KillResult
kill_pid env pid =
    if pid == 0
    then unknown_pid
    else if pid == env.own_pid
    then own_process
    else elim (env.kill pid) [ none ↦ killed pid | some e ↦ kill_failed pid e ]

unfoldable pub kill_daemon_process : KillEnv → KillResult
unfolding get_daemon_pid kill_pid
kill_daemon_process env =
    kill_pid env (if get_daemon_pid env == 0 then env.socket_pid else get_daemon_pid env)

-- What `runSetupUpgrade` does with a running daemon: it stops it by IPC, or else kills it.
-- `shutdown` is the error of `SendShutdown`.
pub data StopResult : Type 0 where
  not_running stopped stopped_by_kill not_stopped : StopResult

unfoldable pub stop_daemon : KillEnv → Bool → Option Text → StopResult
unfolding kill_daemon_process
stop_daemon env alive shutdown = if not alive then not_running else elim shutdown [
  | none ↦ stopped
  | some e ↦ elim (kill_daemon_process env) [ killed pid ↦ stopped_by_kill | _ ↦ not_stopped ]
]
