-- ===== src/Cli/Upgrade.antt =====
-- main.go: `runSetupUpgrade`, which points the daemon's own user entries at the running binary and
-- deletes the binaries that they pointed at before. `F` is a state of the file system.
mod Run
mod Deleting
mod Dangling
mod Examples
use kubelogin_daemon.Prelude.{
  ℕ, ◌≡◌, Bool, true, false, not, ◌&&◌, ◌||◌, ◌==◌, Option, none, some, List, [], ◌∷◌, ◌++◌,
  if◌then◌else◌, ◌⊎◌, inl, inr,
}
use kubelogin_daemon.Text.{Text, codes, text_eq, is_empty, has_prefix, to_lower}
use kubelogin_daemon.Strings.{trim_space}
use kubelogin_daemon.Assoc.{Assoc}
use kubelogin_daemon.Refresher.{Result, err, ok, is_member}
use kubelogin_daemon.Cli.Kubeconfig.{
  ExecConfig, AuthInfo, Kubeconfig, CliError, load_kubeconfig, resolve_binary, write_kubeconfig,
  backup_failed, multiple_kubeconfigs, read_only_kubeconfig, find, has_command, program_name,
}
use kubelogin_daemon.Cli.Entries.{update_all, users_where, is_refusal}

unfoldable pub is_kubelogin_daemon_command : Text → Bool
unfolding program_name
is_kubelogin_daemon_command command = has_prefix (program_name command) (codes "kubelogin-daemon")

-- What a call on a path returns: its value, `os.IsNotExist`, or another error.
pub data Probe (A : Type 0) : Type 0 where
  found : A → Probe A
  missing : Probe A
  failed : Text → Probe A

-- `filepath.EvalSymlinks`, the inode of `os.Stat`, which `os.SameFile` compares, and `os.Remove`.
pub record Files (F : Type 0) : Type 0 where
  pub eval_symlinks : F → Text → Probe Text
  pub stat : F → Text → Probe ℕ
  pub remove : F → Text → F × Option Text

pub data Deletion : Type 0 where
  refused kept removed : Deletion
  delete_failed : Text → Deletion

-- The assignment to the command of an exec section.
unfoldable pub repoint : Text → ExecConfig → ExecConfig
repoint path exec = record exec { command = path }

module _ {F : Type 0} (files : Files F) where
  -- The path that symbolic links lead to, or the path itself where that fails.
  unfoldable pub resolved_path : F → Text → Text
  resolved_path fs path = elim (files.eval_symlinks fs path) [ found r ↦ r | _ ↦ path ]

  -- `os.SameFile`, where both calls of `os.Stat` succeed.
  unfoldable pub is_same_file : F → Text → Text → Bool
  is_same_file fs old new = elim (files.stat fs new) [
    | found j ↦ elim (files.stat fs old) [ found i ↦ i == j | _ ↦ false ]
    | _ ↦ false
  ]

  -- A command of the daemon that is not the new binary.
  unfoldable pub is_stale : F → Text → Text → Bool
  unfolding resolved_path is_same_file is_kubelogin_daemon_command
  is_stale fs new command =
      is_kubelogin_daemon_command command
      && not (text_eq (resolved_path fs command) new)
      && not (is_same_file fs command new)

  -- The users of stale entries, and the paths of these.
  unfoldable pub stale_users : F → Text → Kubeconfig → List Text
  stale_users fs new config = users_where (is_stale fs new) (λ user. true) config.auth_infos

  unfoldable pub stale_paths : F → Text → Assoc (Option AuthInfo) → List Text
  stale_paths fs new [] = []
  stale_paths fs new ((user, info) ∷ infos) =
      let rest = stale_paths fs new infos in
      elim info [
        | none ↦ rest
        | some entry ↦ elim entry.exec [
          | none ↦ rest
          | some exec ↦ if is_stale fs new exec.command then exec.command ∷ rest else rest
        ]
      ]

  -- `collectUniqueOldPaths`, with the paths that have been seen.
  unfoldable pub unique_paths : F → Text → List Text → List Text → List Text
  unfolding resolved_path
  unique_paths fs new seen [] = []
  unique_paths fs new seen (path ∷ paths) =
      let skip = unique_paths fs new seen paths in
      let keep = path ∷ unique_paths fs new (path ∷ seen) paths in
      if text_eq (resolved_path fs path) new
      then skip
      else if is_member path seen
      then skip
      else keep

  unfoldable pub collect_unique_old_paths : F → List Text → Text → List Text
  unfolding unique_paths
  collect_unique_old_paths fs paths new = unique_paths fs new [] paths

  -- `os.Remove(oldPath)`, which both branches of the last test end in.
  unfoldable pub remove_old : F → Text → F × Deletion
  remove_old fs old =
      let (after, error) = files.remove fs old in
      elim error [ none ↦ (after, removed) | some e ↦ (after, delete_failed e) ]

  -- The comparison of the inodes.
  unfoldable pub delete_other : F → Text → Text → F × Deletion
  unfolding remove_old
  delete_other fs old new = elim (files.stat fs old) [
    | missing ↦ (fs, kept)
    | failed e ↦ (fs, delete_failed e)
    | found i ↦ elim (files.stat fs new) [
      | missing ↦ (fs, delete_failed (codes "no such file or directory"))
      | failed e ↦ (fs, delete_failed e)
      | found j ↦ if i == j then (fs, kept) else remove_old fs old
    ]
  ]

  unfoldable pub delete_old_binary : F → Text → Text → F × Deletion
  unfolding delete_other
  delete_old_binary fs old new =
      if not (is_kubelogin_daemon_command old)
      then (fs, refused)
      else elim (files.eval_symlinks fs old) [
        | missing ↦ (fs, kept)
        | failed e ↦ (fs, delete_failed e)
        | found r ↦ elim (files.eval_symlinks fs new) [
          | missing ↦ (fs, delete_failed (codes "no such file or directory"))
          | failed e ↦ (fs, delete_failed e)
          | found s ↦ if text_eq r s then (fs, kept) else delete_other fs old new
        ]
      ]

  -- The loop over the old paths, and the paths that it has removed.
  unfoldable pub delete_old_binaries : F → Text → List Text → F × List Text
  unfolding delete_old_binary
  delete_old_binaries fs new [] = (fs, [])
  delete_old_binaries fs new (path ∷ paths) =
      let (after, outcome) = delete_old_binary fs path new in
      let (final, removals) = delete_old_binaries after new paths in
      (final, elim outcome [ removed ↦ path ∷ removals | _ ↦ removals ])
