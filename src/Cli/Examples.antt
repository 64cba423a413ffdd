-- ===== src/Cli/Examples.antt =====
-- The theorems on the command line at concrete flags, kubeconfigs and files.
use kubelogin_daemon.Prelude.{
  ◌≡◌, refl, true, false, Option, none, some, List, [], ◌∷◌, inr, if◌then◌else◌,
}
use kubelogin_daemon.Text.{Text, codes, text_eq, has_prefix, to_lower, lower_rune}
use kubelogin_daemon.Strings.{
  assign, base, trim_slashes, is_space, byte_length, lacks, trim_space, trim_suffix, trim_right,
  last_element, trim_left,
}
use kubelogin_daemon.Assoc.{insert, lookup}
use kubelogin_daemon.Refresher.{ok, is_member}
use kubelogin_daemon.Cli.Options.{ℤ, pos, empty_config}
use kubelogin_daemon.Cli.Args.{parse_args, parse_exec_args, is_bool_flag}
use kubelogin_daemon.Cli.Forms.{one_dash, two_dashes, parse_args_spellings, is_long}
use kubelogin_daemon.Cli.Kubeconfig.{
  AuthInfo, Context, Kubeconfig, parse_oidc_from_kubeconfig, is_accepted_command, program_name,
}
use kubelogin_daemon.Cli.Flags.{
  OidcFlags, no_flags, resolve_from_kubeconfig, key_of, map_grant_type,
}
use kubelogin_daemon.Cli.Install.{
  InstallOptions, InstallEnv, user_entry, install_exec_args, run_setup_install,
}
use kubelogin_daemon.Cli.Parity.{IsInstallable, installed, parse-install_exec_args}
use kubelogin_daemon.Cli.Installed.{install_then_resolve}
use kubelogin_daemon.Cli.Migrate.{
  MigrateOptions, MigrateEnv, nothing_found, run_setup_migrate, retarget, migrate_loaded,
  migrate_users, migrate_entries, is_upstream_command, in_context, contexts_of,
}
use kubelogin_daemon.Cli.Entries.{update_all, update_exec, users_where, is_refusal}
use kubelogin_daemon.Cli.Migrated.{migrate_keeps_login, migrate_twice}

-- `fmt.Sscanf`, for one number.
abbrev read_int : Text → Option ℤ
read_int s = if text_eq s (codes "30") then some (pos 30) else none

parse_args_spellings_example :
    (parse_args read_int false empty_config
        (one_dash (assign (codes "oidc-client-secret") (codes "-s=1")) ∷ [])
      ≡ parse_args read_int false empty_config
          (two_dashes (codes "oidc-client-secret") ∷ codes "-s=1" ∷ []))
    × (parse_args read_int false empty_config
          (two_dashes (assign (codes "oidc-client-secret") (codes "-s=1")) ∷ [])
        ≡ parse_args read_int false empty_config
            (two_dashes (codes "oidc-client-secret") ∷ codes "-s=1" ∷ []))
    × (parse_args read_int false empty_config
          (one_dash (codes "oidc-client-secret") ∷ codes "-s=1" ∷ [])
        ≡ parse_args read_int false empty_config
            (two_dashes (codes "oidc-client-secret") ∷ codes "-s=1" ∷ []))
unfolding is_long has_prefix byte_length lacks is_bool_flag is_member text_eq
parse_args_spellings_example =
    parse_args_spellings read_int empty_config (codes "oidc-client-secret") (codes "-s=1") [] refl
      refl refl

abbrev flags : OidcFlags
flags = record (no_flags []) {
  issuer_url = codes "https://idp";
  client_id = codes "k8s";
  client_secret = codes "-s";
  extra_scopes = codes "groups" ∷ codes "email" ∷ [];
  extra_params = (codes "aud", codes "a=b") ∷ (codes "hd", codes "x") ∷ [];
  request_headers = (codes "X-Team", codes "k") ∷ [];
  username = codes "ann";
  grant_type = codes "device-code";
  use_access_token = true;
}

flags-IsInstallable : IsInstallable flags
unfolding lacks trim_space trim_left trim_right is_space lookup text_eq
flags-IsInstallable = (
  ((refl, refl, refl), ((refl, refl, refl), tt)),
  (refl, (refl, tt)),
  (refl, (refl, tt)),
  (refl, tt),
  (refl, tt),
)

parse-install_exec_args_example :
    parse_exec_args read_int (install_exec_args flags) ≡ installed flags
parse-install_exec_args_example = parse-install_exec_args read_int flags flags-IsInstallable

abbrev daemon_path : Text
daemon_path = codes "/bin/kubelogin-daemon"

abbrev one_cluster : Kubeconfig
one_cluster = record {
  current_context = [];
  contexts = [];
  auth_infos = [];
  clusters = (codes "prod", codes "server") ∷ [];
}

abbrev install_env : InstallEnv
install_env = record {
  binary_path = ok daemon_path;
  loaded = ok one_cluster;
  perform_auth = λ provider grant. none;
  backup_kubeconfig = none;
  write = λ config. none;
}

abbrev install_options : InstallOptions
install_options = record {
  user_name = codes "oidc";
  cluster_name = codes "prod";
  skip_auth_test = false;
  dry_run = false;
  backup = true;
}

abbrev with_entry : Kubeconfig
with_entry = record one_cluster {
  auth_infos = (codes "oidc", some (user_entry daemon_path flags)) ∷ [];
  contexts =
      (codes "prod", some record { cluster = codes "prod"; auth_info = codes "oidc"; others = [] })
      ∷ [];
}

install_then_resolve_example :
    (g : OidcFlags) × (resolve_from_kubeconfig read_int (ok with_entry) (no_flags (codes "prod"))
      ≡ inr g)
    × (key_of g ≡ key_of flags)
unfolding is_accepted_command text_eq trim_suffix base last_element trim_slashes lacks
    run_setup_install map_grant_type lookup insert
install_then_resolve_example =
    install_then_resolve read_int install_env flags install_options daemon_path with_entry refl refl
      refl flags-IsInstallable (refl, refl, refl) refl

abbrev exec_of : Text → List Text → Option AuthInfo
exec_of command args = some record {
  exec = some record {
    api_version = codes "client.authentication.k8s.io/v1beta1";
    command = command;
    args = args;
    interactive_mode = [];
    others = [];
  };
  others = [];
}

abbrev context_of : Text → Option Context
context_of user = some record { cluster = codes "c"; auth_info = user; others = [] }

-- One entry of upstream kubelogin, and one of another plugin.
abbrev upstream : Kubeconfig
upstream = record {
  current_context = codes "work";
  contexts =
      (codes "work", context_of (codes "ann")) ∷ (codes "aws", context_of (codes "bob")) ∷ [];
  auth_infos =
      (
        codes "ann",
        exec_of (codes "kubelogin") (codes "get-token" ∷ codes "--oidc-client-id=k8s" ∷ []),
      )
      ∷ (codes "bob", exec_of (codes "aws") (codes "eks" ∷ []))
      ∷ [];
  clusters = [];
}

abbrev migrate_env : MigrateEnv
migrate_env = record {
  binary_path = ok daemon_path;
  loaded = ok upstream;
  answer = codes "Y";
  backup_kubeconfig = none;
  write = λ config. none;
}

abbrev migrate_options : MigrateOptions
migrate_options = record {
  context_filter = codes "work";
  dry_run = false;
  skip_confirm = false;
  backup = true;
}

abbrev after_migration : Kubeconfig
after_migration = record upstream {
  auth_infos =
      (
        codes "ann",
        some record {
          exec = some record {
            api_version = codes "client.authentication.k8s.io/v1beta1";
            command = daemon_path;
            args = codes "get-token" ∷ codes "--oidc-client-id=k8s" ∷ [];
            interactive_mode = codes "Never";
            others = [];
          };
          others = [];
        },
      )
      ∷ (codes "bob", exec_of (codes "aws") (codes "eks" ∷ []))
      ∷ [];
}

migrate_keeps_login_example :
    parse_oidc_from_kubeconfig read_int (ok after_migration) []
    ≡ parse_oidc_from_kubeconfig read_int (ok upstream) []
unfolding is_accepted_command program_name base trim_suffix trim_slashes last_element lacks text_eq
    lookup insert run_setup_migrate migrate_loaded migrate_users migrate_entries users_where
    is_upstream_command in_context contexts_of is_member update_all update_exec retarget is_refusal
    trim_space trim_left trim_right is_space to_lower lower_rune
migrate_keeps_login_example =
    migrate_keeps_login read_int migrate_env migrate_options daemon_path upstream after_migration []
      refl refl refl (refl, (refl, tt)) refl

migrate_twice_example :
    run_setup_migrate (record migrate_env { loaded = ok after_migration }) migrate_options
    ≡ inr nothing_found
unfolding is_accepted_command program_name base trim_suffix trim_slashes last_element lacks text_eq
    lookup insert run_setup_migrate migrate_loaded migrate_users migrate_entries users_where
    is_upstream_command in_context contexts_of is_member update_all update_exec retarget is_refusal
    trim_space trim_left trim_right is_space to_lower lower_rune
migrate_twice_example =
    migrate_twice migrate_env migrate_options daemon_path upstream after_migration refl refl refl
      (refl, (refl, tt)) refl
