-- ===== src/Cli/Migrated.antt =====
-- What `setup migrate` keeps and finishes.
use mathlib.Core.Path.{subst}
use kubelogin_daemon.Prelude.{
  ◌≡◌, refl, sym, true, false, not, ◌&&◌, Option, none, some, List, [], ◌∷◌, if◌then◌else◌, ◌⊎◌,
  inl, inr, arith, All, ap, ◌∙◌, Option-cases, List-cases, if_both,
}
use kubelogin_daemon.Text.{Text, to_lower}
use kubelogin_daemon.Strings.{trim_space}
use kubelogin_daemon.Assoc.{Unique}
use kubelogin_daemon.Refresher.{ok}
use kubelogin_daemon.Cli.Options.{ℤ}
use kubelogin_daemon.Cli.Kubeconfig.{
  AuthInfo, Kubeconfig, CliError, find, has_command, is_accepted_command,
  parse_oidc_from_kubeconfig,
}
use kubelogin_daemon.Cli.Entries.{update_all, users_where, is_refusal}
use kubelogin_daemon.Cli.Updates.{update_all-users_where, update_all-contexts}
use kubelogin_daemon.Cli.Kept.{IsAccepted, parse_oidc-update_all, users_where-All}
use kubelogin_daemon.Cli.Migrate.{
  is_upstream_command, in_context, migrate_entries, retarget, MigrateOptions, MigrateEnv,
  MigrateResult, nothing_found, planned, aborted, migrated, migrate_users, migrate_loaded,
  run_setup_migrate,
}

-- What is written, if anything is, is one kubeconfig.
abbrev Writes : Kubeconfig → CliError ⊎ MigrateResult → Type 0
Writes changed (inl e) = Unit
Writes changed (inr nothing_found) = Unit
Writes changed (inr planned) = Unit
Writes changed (inr aborted) = Unit
Writes changed (inr (migrated config)) = changed ≡ config

migrate_users-Writes :
    (env : MigrateEnv) (options : MigrateOptions) (binary : Text) (users : List Text)
    (config : Kubeconfig)
    → Writes
        (update_all (retarget binary) users config)
        (migrate_users env options binary users config)
unfolding migrate_users
migrate_users-Writes env options binary users config =
    elim (Option-cases (if options.backup then env.backup_kubeconfig else none)) [
      | inr (e, failed) ↦ rw (failed, migrate_users) tt
      | inl done ↦
          rw (done, migrate_users)
            (elim (Option-cases (env.write (update_all (retarget binary) users config))) [
              | inr (e, failed) ↦ rw failed tt
              | inl written ↦ rw written refl
            ])
    ]

migrate_loaded-Writes :
    (env : MigrateEnv) (options : MigrateOptions) (binary : Text) (config : Kubeconfig)
    → Writes
        (update_all (retarget binary) (migrate_entries options.context_filter config) config)
        (migrate_loaded env options binary config)
unfolding migrate_loaded
migrate_loaded-Writes env options binary config =
    elim (List-cases (migrate_entries options.context_filter config)) [
      | inl e ↦ rw (e, migrate_loaded) tt
      | inr (user, users, e) ↦
          rw (e, migrate_loaded)
            (let writes = Writes (update_all (retarget binary) (user ∷ users) config) in
              if_both writes options.dry_run tt (
                if_both writes
                  (not options.skip_confirm && is_refusal (trim_space (to_lower env.answer))) tt
                  (migrate_users-Writes env options binary (user ∷ users) config)))
    ]

pub written_config :
    (env : MigrateEnv) (options : MigrateOptions) (binary : Text) (before after : Kubeconfig)
    → env.loaded ≡ ok before
    → env.binary_path ≡ ok binary
    → run_setup_migrate env options ≡ inr (migrated after)
    → update_all (retarget binary) (migrate_entries options.context_filter before) before ≡ after
unfolding run_setup_migrate
written_config env options binary before after loaded path h =
    let run : run_setup_migrate env options ≡ migrate_loaded env options binary before =
      rw (loaded, path, run_setup_migrate) refl in
    subst
      (Writes (update_all (retarget binary) (migrate_entries options.context_filter before) before))
      (sym run ∙ h) (migrate_loaded-Writes env options binary before)

upstream_accepted :
    (command : Text) → is_upstream_command command ≡ true → is_accepted_command command ≡ true
unfolding is_upstream_command is_accepted_command
upstream_accepted command h = ground arith

upstream_All :
    (config : Kubeconfig) (users : List Text)
    → All (λ u. has_command (find u config.auth_infos) is_upstream_command ≡ true) users
    → All (IsAccepted config) users
upstream_All config [] a = tt
upstream_All config (user ∷ users) a =
    (has_command_more (find user config.auth_infos) a.0, upstream_All config users a.1)
  where
    has_command_more :
        (info : Option AuthInfo)
        → has_command info is_upstream_command ≡ true
        → has_command info is_accepted_command ≡ true
    has_command_more none h = absurd (ground arith)
    has_command_more (some info) h = elim (Option-cases info.exec) [
      | inl bare ↦ absurd (ground arith)
      | inr (exec, given) ↦ rw given (upstream_accepted exec.command (ground arith))
    ]

-- After `setup migrate` has written a kubeconfig, `login`, `check` and `refresh` read out of every
-- context what they read out of it before, an error included. The binary's name is one that these
-- commands accept, and no user stands twice in the kubeconfig.
pub migrate_keeps_login :
    (parse_int : Text → Option ℤ) (env : MigrateEnv) (options : MigrateOptions) (binary : Text)
    (before after : Kubeconfig) (context : Text)
    → env.loaded ≡ ok before
    → env.binary_path ≡ ok binary
    → is_accepted_command binary ≡ true
    → Unique before.auth_infos
    → run_setup_migrate env options ≡ inr (migrated after)
    → parse_oidc_from_kubeconfig parse_int (ok after) context
      ≡ parse_oidc_from_kubeconfig parse_int (ok before) context
unfolding migrate_entries retarget
migrate_keeps_login parse_int env options binary before after context loaded path accepted u h =
    ap (λ c. parse_oidc_from_kubeconfig parse_int (ok c) context)
      (sym (written_config env options binary before after loaded path h))
    ∙ parse_oidc-update_all parse_int (retarget binary) (λ exec. refl) (λ exec. accepted)
        (migrate_entries options.context_filter before) context before
        (upstream_All before (migrate_entries options.context_filter before) (
          users_where-All is_upstream_command (in_context options.context_filter before.contexts)
            before.auth_infos u))

-- After `setup migrate` has written a kubeconfig, another run over it with the same context filter
-- finds nothing to migrate, where the binary is not named like upstream kubelogin, and no user
-- stands twice in the kubeconfig.
pub migrate_twice :
    (env : MigrateEnv) (options : MigrateOptions) (binary : Text) (before after : Kubeconfig)
    → env.loaded ≡ ok before
    → env.binary_path ≡ ok binary
    → is_upstream_command binary ≡ false
    → Unique before.auth_infos
    → run_setup_migrate env options ≡ inr (migrated after)
    → run_setup_migrate (record env { loaded = ok after }) options ≡ inr nothing_found
unfolding run_setup_migrate migrate_loaded migrate_entries retarget
migrate_twice env options binary before after loaded path other u h =
    let changed : Kubeconfig =
      update_all (retarget binary) (migrate_entries options.context_filter before) before in
    let same : changed ≡ after = written_config env options binary before after loaded path h in
    let empty : migrate_entries options.context_filter changed ≡ [] =
      ap
        (λ contexts.
          users_where is_upstream_command (in_context options.context_filter contexts)
            changed.auth_infos)
        (update_all-contexts (retarget binary) (migrate_entries options.context_filter before)
          before).0
      ∙ update_all-users_where (retarget binary) is_upstream_command
          (in_context options.context_filter before.contexts) (λ exec. other) before u in
    let empty_after : migrate_entries options.context_filter after ≡ [] =
      subst (λ c. migrate_entries options.context_filter c ≡ []) same empty in
    rw (path, run_setup_migrate) (rw (empty_after, migrate_loaded) refl)
