-- ===== src/Cli/Upgrade/Dangling.antt =====
-- `runSetupUpgrade` leaves no entry of the kubeconfig at a path that it has deleted.
use mathlib.Core.Path.{subst}
use kubelogin_daemon.Prelude.{
  ◌≡◌, refl, true, false, not, ◌&&◌, Option, none, some, List, [], ◌∷◌, if◌then◌else◌, ◌⊎◌, inl,
  inr, arith, All, Bool-cases, Option-cases, List-cases, if_both,
}
use kubelogin_daemon.Text.{Text, text_eq, text_eq_refl, text_eq_sound, to_lower}
use kubelogin_daemon.Strings.{trim_space}
use kubelogin_daemon.Assoc.{Assoc, AllValues, Unique}
use kubelogin_daemon.Refresher.{ok, is_member}
use kubelogin_daemon.Cli.Kubeconfig.{AuthInfo, Kubeconfig, CliError, has_command}
use kubelogin_daemon.Cli.Entries.{update_all, users_where, is_refusal, Covered, users_where-Covered}
use kubelogin_daemon.Cli.Updates.{update_all-Covered}
use kubelogin_daemon.Cli.Daemon.{StopResult}
use kubelogin_daemon.Cli.Upgrade.{
  found, Files, is_kubelogin_daemon_command, removed, refused, kept, delete_failed, repoint,
  resolved_path, is_stale, stale_users, stale_paths, unique_paths, collect_unique_old_paths,
  delete_old_binary, delete_old_binaries, Deletion,
}
use kubelogin_daemon.Cli.Upgrade.Run.{
  UpgradeEnv, UpgradeOptions, UpgradeResult, no_entries, up_to_date, aborted, daemon_restarts,
  planned, upgraded, upgrade_in_place, upgrade_users, upgrade_stale, upgrade_loaded,
  run_setup_upgrade,
}

module _ {F : Type 0} (files : Files F) where
  -- A property of the candidates holds of what the loops keep of them.
  unique_paths-All :
      (P : Text → Type 0) (fs : F) (new : Text) (seen paths : List Text)
      → All P paths
      → All P (unique_paths files fs new seen paths)
  unfolding unique_paths
  unique_paths-All P fs new seen [] a = tt
  unique_paths-All P fs new seen (path ∷ paths) a =
      if_both (All P) (text_eq (resolved_path files fs path) new)
        (unique_paths-All P fs new seen paths a.1)
        (if_both (All P) (is_member path seen) (unique_paths-All P fs new seen paths a.1)
          (a.0, unique_paths-All P fs new (path ∷ seen) paths a.1))

  delete_old_binaries-All :
      (P : Text → Type 0) (fs : F) (new : Text) (paths : List Text)
      → All P paths
      → All P (delete_old_binaries files fs new paths).1
  unfolding delete_old_binaries
  delete_old_binaries-All P fs new [] a = tt
  delete_old_binaries-All P fs new (path ∷ paths) a =
      keep_All P path (delete_old_binary files fs path new).1
        (delete_old_binaries files (delete_old_binary files fs path new).0 new paths).1 a.0
        (delete_old_binaries-All P (delete_old_binary files fs path new).0 new paths a.1)
    where
      keep_All :
          (P : Text → Type 0) (path : Text) (outcome : Deletion) (removals : List Text)
          → P path
          → All P removals
          → All P (elim outcome [ removed ↦ path ∷ removals | _ ↦ removals ])
      keep_All P path refused removals p a = a
      keep_All P path kept removals p a = a
      keep_All P path removed removals p a = (p, a)
      keep_All P path (delete_failed e) removals p a = a

  stale_paths-All :
      (fs : F) (new : Text) (infos : Assoc (Option AuthInfo))
      → All (λ path. is_stale files fs new path ≡ true) (stale_paths files fs new infos)
  unfolding stale_paths
  stale_paths-All fs new [] = tt
  stale_paths-All fs new ((user, none) ∷ infos) = stale_paths-All fs new infos
  stale_paths-All fs new ((user, some info) ∷ infos) = elim (Option-cases info.exec) [
    | inl e ↦ rw e (stale_paths-All fs new infos)
    | inr (exec, e) ↦ rw e (elim (Bool-cases (is_stale files fs new exec.command)) [
      | inl stale ↦ rw stale (stale, stale_paths-All fs new infos)
      | inr fresh ↦ rw fresh (stale_paths-All fs new infos)
    ])
  ]

  new_fresh :
      (fs : F) (new : Text)
      → files.eval_symlinks fs new ≡ found new
      → is_stale files fs new new ≡ false
  unfolding is_stale resolved_path
  new_fresh fs new h = ground (arith, text_eq_refl new)

  -- No entry has a path as its command.
  abbrev pub NoneAt : Kubeconfig → Text → Type 0
  NoneAt config path = AllValues (λ info. has_command info (text_eq path) ≡ false) config.auth_infos

  NoneAt-stale :
      (fs : F) (new path : Text) (infos : Assoc (Option AuthInfo))
      → is_stale files fs new path ≡ true
      → Covered (is_stale files fs new) (λ user. true) [] infos
      → AllValues (λ info. has_command info (text_eq path) ≡ false) infos
  unfolding is_member
  NoneAt-stale fs new path [] stale c = tt
  NoneAt-stale fs new path ((user, none) ∷ infos) stale c =
      (refl, NoneAt-stale fs new path infos stale c.1)
  NoneAt-stale fs new path ((user, some info) ∷ infos) stale c = (
    elim (Option-cases info.exec) [
      | inl e ↦ rw e refl
      | inr (exec, e) ↦ rw e (elim (Bool-cases (text_eq path exec.command)) [
        | inr differ ↦ differ
        | inl same ↦ absurd (ground (arith, text_eq_sound path exec.command same))
      ])
    ],
    NoneAt-stale fs new path infos stale c.1,
  )

  NoneAt-All :
      (fs : F) (new : Text) (config : Kubeconfig) (paths : List Text)
      → Covered (is_stale files fs new) (λ user. true) [] config.auth_infos
      → All (λ path. is_stale files fs new path ≡ true) paths
      → All (NoneAt config) paths
  NoneAt-All fs new config [] c a = tt
  NoneAt-All fs new config (path ∷ paths) c a =
      (NoneAt-stale fs new path config.auth_infos a.0 c, NoneAt-All fs new config paths c a.1)

  abbrev NoDangling : CliError ⊎ UpgradeResult → Type 0
  NoDangling (inl e) = Unit
  NoDangling (inr no_entries) = Unit
  NoDangling (inr up_to_date) = Unit
  NoDangling (inr aborted) = Unit
  NoDangling (inr (daemon_restarts stop)) = Unit
  NoDangling (inr (planned paths)) = Unit
  NoDangling (inr (upgraded config stop removals)) = All (NoneAt config) removals

  upgrade_users-NoDangling :
      (env : UpgradeEnv F) (options : UpgradeOptions) (new : Text) (config : Kubeconfig)
      → files.eval_symlinks env.before new ≡ found new
      → Unique config.auth_infos
      → NoDangling (upgrade_users files env options new config)
  unfolding upgrade_users collect_unique_old_paths stale_users repoint
  upgrade_users-NoDangling env options new config resolved u =
      let changed : Kubeconfig =
        update_all (repoint new) (stale_users files env.before new config) config in
      let old_paths : List Text = stale_paths files env.before new config.auth_infos in
      let covered : Covered (is_stale files env.before new) (λ user. true) [] changed.auth_infos =
        update_all-Covered (repoint new) (is_stale files env.before new) (λ user. true)
          (λ exec. new_fresh env.before new resolved) (stale_users files env.before new config)
          config u
          (users_where-Covered (is_stale files env.before new) (λ user. true) config.auth_infos) in
      elim (Option-cases (if options.backup then env.backup_kubeconfig else none)) [
        | inr (e, failure) ↦ rw (failure, upgrade_users) tt
        | inl backed_up ↦
            rw (backed_up, upgrade_users)
              (elim (Option-cases (env.write changed)) [
                | inr (e, failure) ↦ rw failure tt
                | inl written ↦ rw written (
                    if_both (All (NoneAt changed)) options.keep_old tt (
                      NoneAt-All env.before new changed _ covered (
                        delete_old_binaries-All _ env.later new _ (
                          unique_paths-All _ env.later new [] old_paths
                            (stale_paths-All env.before new config.auth_infos)))))
              ])
      ]

  upgrade_loaded-NoDangling :
      (env : UpgradeEnv F) (options : UpgradeOptions) (new : Text) (config : Kubeconfig)
      → files.eval_symlinks env.before new ≡ found new
      → Unique config.auth_infos
      → NoDangling (upgrade_loaded files env options new config)
  unfolding upgrade_loaded upgrade_stale upgrade_in_place
  upgrade_loaded-NoDangling env options new config resolved u =
      elim (List-cases (stale_users files env.before new config)) [
        | inr (user, users, e) ↦
            rw (e, upgrade_loaded)
              (if_both NoDangling options.dry_run tt (
                if_both NoDangling
                  (not options.skip_confirm && is_refusal (trim_space (to_lower env.answer))) tt
                  (if_both NoDangling env.read_only tt
                    (upgrade_users-NoDangling env options new config resolved u))))
        | inl e ↦
            rw (e, upgrade_loaded)
              (elim (List-cases
                (users_where is_kubelogin_daemon_command (λ user. true) config.auth_infos)) [
                  | inl absent ↦ rw (absent, upgrade_in_place) tt
                  | inr (user, users, there) ↦
                      rw (there, upgrade_in_place) (if_both NoDangling options.dry_run tt tt)
                ])
      ]

  -- After `setup upgrade` has written a kubeconfig and deleted old binaries, no entry of the
  -- kubeconfig has a deleted path as its command. The path of the new binary has no symbolic links
  -- left, and no user stands twice in the kubeconfig.
  pub upgrade_no_dangling :
      (env : UpgradeEnv F) (options : UpgradeOptions) (new : Text) (before after : Kubeconfig)
      (stop : StopResult) (removals : List Text)
      → env.binary_path ≡ ok new
      → env.loaded ≡ ok before
      → files.eval_symlinks env.before new ≡ found new
      → Unique before.auth_infos
      → run_setup_upgrade files env options ≡ inr (upgraded after stop removals)
      → All (NoneAt after) removals
  unfolding run_setup_upgrade
  upgrade_no_dangling env options new before after stop removals path loaded resolved u h =
      subst NoDangling h (
        rw (path, loaded, run_setup_upgrade)
          (if_both NoDangling env.several_kubeconfigs tt
            (upgrade_loaded-NoDangling env options new before resolved u)))
