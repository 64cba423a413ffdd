-- ===== src/Cli/Migrate.antt =====
-- main.go: `runSetupMigrate`, which points the user entries of upstream kubelogin at the daemon's
-- binary.
use kubelogin_daemon.Prelude.{
  Bool, true, false, not, ◌&&◌, ◌||◌, Option, none, some, List, [], ◌∷◌, if◌then◌else◌, ◌⊎◌, inl,
  inr,
}
use kubelogin_daemon.Text.{Text, codes, text_eq, is_empty, contains, to_lower}
use kubelogin_daemon.Strings.{trim_space}
use kubelogin_daemon.Assoc.{Assoc}
use kubelogin_daemon.Refresher.{Result, err, ok, is_member}
use kubelogin_daemon.Cli.Options.{ℤ}
use kubelogin_daemon.Cli.Args.{parse_exec_args}
use kubelogin_daemon.Cli.Kubeconfig.{
  ExecConfig, Context, Kubeconfig, CliError, load_kubeconfig, resolve_binary, write_kubeconfig,
  backup_failed, program_name,
}
use kubelogin_daemon.Cli.Entries.{update_all, users_where, is_refusal}

unfoldable pub is_upstream_command : Text → Bool
unfolding program_name
is_upstream_command command =
    let name = program_name command in
    text_eq name (codes "kubelogin") || text_eq name (codes "kubectl-oidc_login")

-- The contexts that refer to a user.
unfoldable pub contexts_of : Text → Assoc (Option Context) → List Text
contexts_of user [] = []
contexts_of user ((name, none) ∷ contexts) = contexts_of user contexts
contexts_of user ((name, some context) ∷ contexts) =
    let rest = contexts_of user contexts in
    if text_eq context.auth_info user then name ∷ rest else rest

-- The filter by a context, where one is given.
unfoldable pub in_context : Text → Assoc (Option Context) → Text → Bool
unfolding contexts_of
in_context filter contexts user =
    if is_empty filter then true else is_member filter (contexts_of user contexts)

unfoldable pub migrate_entries : Text → Kubeconfig → List Text
unfolding in_context
migrate_entries filter config =
    users_where is_upstream_command (in_context filter config.contexts) config.auth_infos

unfoldable pub retarget : Text → ExecConfig → ExecConfig
retarget binary exec = record exec { command = binary; interactive_mode = codes "Never" }

-- What is printed about an entry before it is migrated.
pub data Warning : Type 0 where
  password_grant client_credentials_grant keyring_storage : Text → Warning

unfoldable pub names_keyring : List Text → Bool
names_keyring [] = false
names_keyring (arg ∷ args) =
    (contains arg (codes "token-cache-storage") && contains arg (codes "keyring"))
    || names_keyring args

unfoldable pub entry_warnings : (Text → Option ℤ) → Text → List Text → List Warning
unfolding names_keyring
entry_warnings parse_int user args =
    let grant = (parse_exec_args parse_int args).grant_type in
    let storage : List Warning = if names_keyring args then keyring_storage user ∷ [] else [] in
    if text_eq grant (codes "password")
    then password_grant user ∷ storage
    else if text_eq grant (codes "client-credentials")
    then client_credentials_grant user ∷ storage
    else storage

-- The parameters of `runSetupMigrate`, and the outcomes of its calls; the answer is the line that
-- is read from the standard input, empty where there is none.
pub record MigrateOptions : Type 0 where
  pub context_filter : Text
  pub dry_run : Bool
  pub skip_confirm : Bool
  pub backup : Bool

pub record MigrateEnv : Type 0 where
  pub binary_path : Result Text
  pub loaded : Result Kubeconfig
  pub answer : Text
  pub backup_kubeconfig : Option Text
  pub write : Kubeconfig → Option Text

pub data MigrateResult : Type 0 where
  nothing_found planned aborted : MigrateResult
  migrated : Kubeconfig → MigrateResult

unfoldable pub migrate_users :
    MigrateEnv → MigrateOptions → Text → List Text → Kubeconfig → CliError ⊎ MigrateResult
migrate_users env options binary users config =
    let changed = update_all (retarget binary) users config in
    elim (if options.backup then env.backup_kubeconfig else none) [
      | some e ↦ inl (backup_failed e)
      | none ↦ elim (env.write changed) [
        | some e ↦ inl (write_kubeconfig e)
        | none ↦ inr (migrated changed)
      ]
    ]

unfoldable pub migrate_loaded :
    MigrateEnv → MigrateOptions → Text → Kubeconfig → CliError ⊎ MigrateResult
unfolding migrate_users
migrate_loaded env options binary config = elim (migrate_entries options.context_filter config) [
  | [] ↦ inr nothing_found
  | user ∷ users ↦
      if options.dry_run
      then inr planned
      else if not options.skip_confirm && is_refusal (trim_space (to_lower env.answer))
      then inr aborted
      else migrate_users env options binary (user ∷ users) config
]

unfoldable pub run_setup_migrate : MigrateEnv → MigrateOptions → CliError ⊎ MigrateResult
unfolding migrate_loaded
run_setup_migrate env options = elim env.loaded [
  | err e ↦ inl (load_kubeconfig e)
  | ok config ↦ elim env.binary_path [
    | err e ↦ inl (resolve_binary e)
    | ok binary ↦ migrate_loaded env options binary config
  ]
]
