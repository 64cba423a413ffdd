-- ===== src/Cli/Upgrade/Run.antt =====
-- main.go: `runSetupUpgrade` as a whole. The states of the file system are the one in which the
-- stale entries are found, and the one in which the old binaries are deleted.
use kubelogin_daemon.Prelude.{
  Bool, true, not, ◌&&◌, Option, none, some, List, [], ◌∷◌, if◌then◌else◌, ◌⊎◌, inl, inr,
}
use kubelogin_daemon.Text.{Text, to_lower}
use kubelogin_daemon.Strings.{trim_space}
use kubelogin_daemon.Refresher.{Result, err, ok}
use kubelogin_daemon.Cli.Kubeconfig.{
  Kubeconfig, CliError, load_kubeconfig, resolve_binary, write_kubeconfig, backup_failed,
  multiple_kubeconfigs, read_only_kubeconfig,
}
use kubelogin_daemon.Cli.Entries.{update_all, users_where, is_refusal}
use kubelogin_daemon.Cli.Daemon.{KillEnv, StopResult, stop_daemon}
use kubelogin_daemon.Cli.Upgrade.{
  Files, is_kubelogin_daemon_command, repoint, stale_users, stale_paths, collect_unique_old_paths,
  delete_old_binaries,
}

pub record UpgradeOptions : Type 0 where
  pub dry_run : Bool
  pub skip_confirm : Bool
  pub backup : Bool
  pub keep_old : Bool

-- The outcomes of the calls. `several_kubeconfigs` is the guard on `--kubeconfig` and
-- `hasMultipleKubeconfigs`; `read_only` says that the kubeconfig exists without a write bit.
pub record UpgradeEnv (F : Type 0) : Type 0 where
  pub binary_path : Result Text
  pub several_kubeconfigs : Bool
  pub loaded : Result Kubeconfig
  pub before : F
  pub later : F
  pub answer : Text
  pub kubeconfig_file : Text
  pub read_only : Bool
  pub backup_kubeconfig : Option Text
  pub write : Kubeconfig → Option Text
  pub daemon_alive : Bool
  pub shutdown : Option Text
  pub processes : KillEnv

pub data UpgradeResult : Type 0 where
  no_entries up_to_date aborted : UpgradeResult
  daemon_restarts : StopResult → UpgradeResult
  planned : List Text → UpgradeResult
  upgraded : Kubeconfig → StopResult → List Text → UpgradeResult

module _ {F : Type 0} (files : Files F) where
  -- No entry is stale: a running daemon is stopped, so that the binary is started anew.
  unfoldable pub upgrade_in_place :
      UpgradeEnv F → UpgradeOptions → Kubeconfig → CliError ⊎ UpgradeResult
  upgrade_in_place env options config =
      elim (users_where is_kubelogin_daemon_command (λ user. true) config.auth_infos) [
        | [] ↦ inr no_entries
        | user ∷ users ↦
            if options.dry_run
            then inr up_to_date
            else inr (daemon_restarts (stop_daemon env.processes env.daemon_alive env.shutdown))
      ]

  -- The kubeconfig with the entries changed is written, the daemon stopped, and the old binaries
  -- are deleted.
  unfoldable pub upgrade_users :
      UpgradeEnv F → UpgradeOptions → Text → Kubeconfig → CliError ⊎ UpgradeResult
  upgrade_users env options new config =
      let changed = update_all (repoint new) (stale_users files env.before new config) config in
      let old_paths =
        collect_unique_old_paths files env.later
          (stale_paths files env.before new config.auth_infos) new in
      elim (if options.backup then env.backup_kubeconfig else none) [
        | some e ↦ inl (backup_failed e)
        | none ↦ elim (env.write changed) [
          | some e ↦ inl (write_kubeconfig e)
          | none ↦ inr (
              upgraded changed (stop_daemon env.processes env.daemon_alive env.shutdown) (
                if options.keep_old
                then []
                else (delete_old_binaries files env.later new old_paths).1))
        ]
      ]

  unfoldable pub upgrade_stale :
      UpgradeEnv F → UpgradeOptions → Text → Kubeconfig → CliError ⊎ UpgradeResult
  unfolding upgrade_users
  upgrade_stale env options new config =
      if options.dry_run
      then inr (
          planned (
            if options.keep_old
            then []
            else collect_unique_old_paths files env.before
                (stale_paths files env.before new config.auth_infos) new))
      else if not options.skip_confirm && is_refusal (trim_space (to_lower env.answer))
      then inr aborted
      else if env.read_only
      then inl (read_only_kubeconfig env.kubeconfig_file)
      else upgrade_users env options new config

  unfoldable pub upgrade_loaded :
      UpgradeEnv F → UpgradeOptions → Text → Kubeconfig → CliError ⊎ UpgradeResult
  unfolding upgrade_in_place upgrade_stale
  upgrade_loaded env options new config = elim (stale_users files env.before new config) [
    | [] ↦ upgrade_in_place env options config
    | user ∷ users ↦ upgrade_stale env options new config
  ]

  unfoldable pub run_setup_upgrade : UpgradeEnv F → UpgradeOptions → CliError ⊎ UpgradeResult
  unfolding upgrade_loaded
  run_setup_upgrade env options = elim env.binary_path [
    | err e ↦ inl (resolve_binary e)
    | ok new ↦ if env.several_kubeconfigs then inl multiple_kubeconfigs else elim env.loaded [
      | err e ↦ inl (load_kubeconfig e)
      | ok config ↦ upgrade_loaded env options new config
    ]
  ]
