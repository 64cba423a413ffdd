-- ===== src/Cli/Upgrade/Examples.antt =====
-- The theorems on the upgrade at a concrete file system: paths with their inodes, and no links.
use kubelogin_daemon.Cli.Entries.{is_refusal, update_all, update_exec, users_where}
use kubelogin_daemon.Strings.{
  base, is_space, lacks, last_element, trim_left, trim_right, trim_slashes, trim_space, trim_suffix,
}
use kubelogin_daemon.Prelude.{ℕ, ◌≡◌, refl, true, false, Option, none, some, [], ◌∷◌, All}
use kubelogin_daemon.Text.{Text, codes, text_eq, has_prefix, lower_rune, to_lower}
use kubelogin_daemon.Assoc.{Assoc, lookup, delete, insert}
use kubelogin_daemon.Refresher.{ok, is_member}
use kubelogin_daemon.Cli.Kubeconfig.{AuthInfo, Kubeconfig, program_name}
use kubelogin_daemon.Cli.Daemon.{
  not_running, kill_daemon_process, stop_daemon, get_daemon_pid, kill_pid,
}
use kubelogin_daemon.Cli.Upgrade.{
  found, missing, Files, is_kubelogin_daemon_command, delete_old_binary, stale_users, delete_other,
  resolved_path, delete_old_binaries, is_same_file, repoint, stale_paths, is_stale, unique_paths,
  remove_old, collect_unique_old_paths,
}
use kubelogin_daemon.Cli.Upgrade.Deleting.{OtherPath, OtherInode, delete_old_binary_other}
use kubelogin_daemon.Cli.Upgrade.Run.{
  UpgradeOptions, UpgradeEnv, run_setup_upgrade, upgrade_loaded, upgrade_in_place, upgrade_users,
  upgrade_stale,
}
use kubelogin_daemon.Cli.Upgrade.Dangling.{NoneAt, upgrade_no_dangling}

abbrev probe {ℓ} : {A : Type ℓ} → Option ℕ → (ℕ → A) → A → A
probe none f a = a
probe (some i) f a = f i

abbrev plain_files : Files (Assoc ℕ)
plain_files = record {
  eval_symlinks = λ fs path. probe (lookup path fs) (λ i. found path) missing;
  stat = λ fs path. probe (lookup path fs) (λ i. found i) missing;
  remove = λ fs path. (delete path fs, none);
}

abbrev new_path : Text
new_path = codes "/n/kubelogin-daemon"

abbrev old_path : Text
old_path = codes "/o/kubelogin-daemon"

abbrev two_binaries : Assoc ℕ
two_binaries = (new_path, 7) ∷ (old_path, 8) ∷ []

delete_old_binary_other_example :
    (is_kubelogin_daemon_command old_path ≡ true)
    × OtherPath plain_files two_binaries old_path new_path
    × OtherInode plain_files two_binaries old_path new_path
unfolding delete_old_binary is_kubelogin_daemon_command has_prefix trim_suffix base last_element
    trim_slashes lacks text_eq lookup
delete_old_binary_other_example =
    delete_old_binary_other plain_files two_binaries old_path new_path refl

abbrev entry_of : Text → Option AuthInfo
entry_of command = some record {
  exec = some record {
    api_version = codes "v1";
    command = command;
    args = codes "get-token" ∷ [];
    interactive_mode = codes "Never";
    others = [];
  };
  others = [];
}

abbrev config_with : Text → Kubeconfig
config_with command = record {
  current_context = [];
  contexts = [];
  auth_infos = (codes "ann", entry_of command) ∷ [];
  clusters = [];
}

abbrev upgrade_env : UpgradeEnv (Assoc ℕ)
upgrade_env = record {
  binary_path = ok new_path;
  several_kubeconfigs = false;
  loaded = ok (config_with old_path);
  before = two_binaries;
  later = two_binaries;
  answer = [];
  kubeconfig_file = codes "/c";
  read_only = false;
  backup_kubeconfig = none;
  write = λ config. none;
  daemon_alive = false;
  shutdown = none;
  processes = record { health = none; socket_pid = 0; own_pid = 5; kill = λ pid. none };
}

abbrev upgrade_options : UpgradeOptions
upgrade_options = record { dry_run = false; skip_confirm = false; backup = true; keep_old = false }

upgrade_no_dangling_example : All (NoneAt plain_files (config_with new_path)) (old_path ∷ [])
unfolding lookup text_eq run_setup_upgrade stale_users users_where is_stale has_prefix trim_suffix
    base last_element trim_slashes lacks is_refusal trim_space trim_left trim_right to_lower insert
    get_daemon_pid kill_daemon_process kill_pid stop_daemon update_all update_exec program_name
    upgrade_in_place upgrade_loaded upgrade_stale upgrade_users collect_unique_old_paths
    delete_old_binaries delete_old_binary delete_other is_kubelogin_daemon_command is_same_file
    remove_old repoint resolved_path stale_paths unique_paths is_member is_space lower_rune
upgrade_no_dangling_example =
    upgrade_no_dangling plain_files upgrade_env upgrade_options new_path (config_with old_path)
      (config_with new_path) not_running (old_path ∷ []) refl refl refl (refl, tt) refl
