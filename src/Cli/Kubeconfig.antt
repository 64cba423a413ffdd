-- ===== src/Cli/Kubeconfig.antt =====
-- main.go: `parseOIDCFromKubeconfig` and the parts of a kubeconfig that main.go reads and writes.
-- `others` stands for the fields of an entry that it passes through.
use kubelogin_daemon.Prelude.{
  Bool, false, ◌||◌, Option, none, some, List, if◌then◌else◌, ◌⊎◌, inl, inr,
}
use kubelogin_daemon.Text.{Text, codes, text_eq, is_empty}
use kubelogin_daemon.Strings.{base, trim_suffix}
use kubelogin_daemon.Assoc.{Assoc, lookup}
use kubelogin_daemon.Refresher.{Result, err, ok}
use kubelogin_daemon.Cli.Options.{ℤ, ParsedConfig}
use kubelogin_daemon.Cli.Args.{parse_exec_args}

-- `clientcmdapi.ExecConfig`.
pub record ExecConfig : Type 0 where
  pub api_version : Text
  pub command : Text
  pub args : List Text
  pub interactive_mode : Text
  pub others : Text

-- `clientcmdapi.AuthInfo`.
pub record AuthInfo : Type 0 where
  pub exec : Option ExecConfig
  pub others : Text

-- `clientcmdapi.Context`.
pub record Context : Type 0 where
  pub cluster : Text
  pub auth_info : Text
  pub others : Text

-- `clientcmdapi.Config`; an entry of the two maps may be a nil pointer.
pub record Kubeconfig : Type 0 where
  pub current_context : Text
  pub contexts : Assoc (Option Context)
  pub auth_infos : Assoc (Option AuthInfo)
  pub clusters : Assoc Text

-- The errors of the commands, with what is printed into them.
pub data CliError : Type 0 where
  load_kubeconfig : Text → CliError
  no_current_context : CliError
  context_not_found user_not_found no_exec_plugin foreign_command : Text → CliError
  read_kubeconfig : CliError → CliError
  issuer_and_client_required : CliError
  password_unsupported client_credentials_unsupported : CliError
  resolve_binary test_authentication write_kubeconfig backup_failed : Text → CliError
  cluster_not_found : Text → CliError
  multiple_kubeconfigs : CliError
  read_only_kubeconfig : Text → CliError

-- A lookup in a map of pointers, under the guard `!ok || x == nil`.
abbrev pub find {ℓ} : {A : Type ℓ} → Text → Assoc (Option A) → Option A
find k m = elim (lookup k m) [ none ↦ none | some entry ↦ entry ]

-- `strings.TrimSuffix(filepath.Base(command), ".exe")`.
unfoldable pub program_name : Text → Text
program_name command = trim_suffix (base command) (codes ".exe")

unfoldable pub is_accepted_command : Text → Bool
unfolding program_name
is_accepted_command command =
    let name = program_name command in
    text_eq name (codes "kubelogin-daemon")
    || text_eq name (codes "kubelogin")
    || text_eq name (codes "kubectl-oidc_login")

abbrev pub has_command : Option AuthInfo → (Text → Bool) → Bool
has_command none test = false
has_command (some info) test = elim info.exec [ none ↦ false | some exec ↦ test exec.command ]

module _ (parse_int : Text → Option ℤ) where
  unfoldable pub parse_user : Text → Option AuthInfo → CliError ⊎ ParsedConfig
  parse_user user none = inl (user_not_found user)
  parse_user user (some info) = elim info.exec [
    | none ↦ inl (no_exec_plugin user)
    | some exec ↦
        if is_accepted_command exec.command
        then inr (parse_exec_args parse_int exec.args)
        else inl (foreign_command (program_name exec.command))
  ]

  -- The kubeconfig is the result of `rules.Load()`.
  unfoldable pub parse_oidc_from_kubeconfig : Result Kubeconfig → Text → CliError ⊎ ParsedConfig
  unfolding parse_user
  parse_oidc_from_kubeconfig (err e) context_name = inl (load_kubeconfig e)
  parse_oidc_from_kubeconfig (ok config) context_name =
      let name = if is_empty context_name then config.current_context else context_name in
      if is_empty name then inl no_current_context else elim (find name config.contexts) [
        | none ↦ inl (context_not_found name)
        | some context ↦ parse_user context.auth_info (find context.auth_info config.auth_infos)
      ]
