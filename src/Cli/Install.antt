-- ===== src/Cli/Install.antt =====
-- main.go: `runSetupInstall`, which writes a user entry into the kubeconfig whose exec section runs
-- `get-token` with the flags of the command. The range over a map is in the order of the list.
use kubelogin_daemon.Prelude.{
  Bool, true, false, not, ◌&&◌, Option, none, some, List, [], ◌∷◌, ◌++◌, map, if◌then◌else◌, ◌⊎◌,
  inl, inr,
}
use kubelogin_daemon.Text.{Text, codes, text_eq, is_empty}
use kubelogin_daemon.Strings.{assign}
use kubelogin_daemon.Assoc.{insert, has}
use kubelogin_daemon.Refresher.{Provider, Result, err, ok}
use kubelogin_daemon.Cli.Kubeconfig.{
  AuthInfo, Kubeconfig, CliError, load_kubeconfig, resolve_binary, test_authentication,
  write_kubeconfig, backup_failed, cluster_not_found,
}
use kubelogin_daemon.Cli.Flags.{OidcFlags, map_grant_type}

-- `append(execArgs, x)` under a guard.
abbrev pub given : Bool → Text → List Text
given true arg = arg ∷ []
given false arg = []

abbrev pub param_arg : Text → Text × Text → Text
param_arg flag (k, v) = assign flag (assign k v)

unfoldable pub install_exec_args : OidcFlags → List Text
install_exec_args f =
    codes "get-token"
    ∷ assign (codes "--oidc-issuer-url") f.issuer_url
    ∷ assign (codes "--oidc-client-id") f.client_id
    ∷ (given (not (is_empty f.client_secret))
          (assign (codes "--oidc-client-secret") f.client_secret)
        ++ (map (assign (codes "--oidc-extra-scope")) f.extra_scopes
            ++ (map (param_arg (codes "--oidc-extra-param")) f.extra_params
                ++ (map (param_arg (codes "--oidc-request-header")) f.request_headers
                    ++ (given (not (is_empty f.username)) (assign (codes "--username") f.username)
                        ++ (given
                              (not (is_empty f.grant_type)
                                && not (text_eq f.grant_type (codes "auto")))
                              (assign (codes "--grant-type") f.grant_type)
                            ++ given f.use_access_token (codes "--oidc-use-access-token")))))))

-- The parameters of `runSetupInstall` that are not OIDC flags.
pub record InstallOptions : Type 0 where
  pub user_name : Text
  pub cluster_name : Text
  pub skip_auth_test : Bool
  pub dry_run : Bool
  pub backup : Bool

-- The outcomes of the calls: the path of the binary, the loaded kubeconfig, the test login of
-- `shim.PerformAuth`, `backupKubeconfig`, and a write of the kubeconfig. Of the last three
-- it is the error, if there is one.
pub record InstallEnv : Type 0 where
  pub binary_path : Result Text
  pub loaded : Result Kubeconfig
  pub perform_auth : Provider → Text → Option Text
  pub backup_kubeconfig : Option Text
  pub write : Kubeconfig → Option Text

unfoldable pub user_entry : Text → OidcFlags → AuthInfo
unfolding install_exec_args
user_entry binary f = record {
  exec = some record {
    api_version = codes "client.authentication.k8s.io/v1";
    command = binary;
    args = install_exec_args f;
    interactive_mode = codes "Never";
    others = [];
  };
  others = [];
}

-- The test login: its error, where it fails.
unfoldable pub auth_test : InstallEnv → OidcFlags → Option CliError
auth_test env f = elim (map_grant_type f.grant_type) [
  | inl e ↦ some e
  | inr mapped ↦
      let provider : Provider = record {
        issuer_url = f.issuer_url;
        client_id = f.client_id;
        client_secret = f.client_secret;
        extra_scopes = f.extra_scopes;
        use_access_token = f.use_access_token;
        request_headers = f.request_headers;
        redirect_url = [];
      } in
      elim (env.perform_auth provider (if is_empty mapped then codes "device-code" else mapped)) [
        | some e ↦ some (test_authentication e)
        | none ↦ none
      ]
]

-- `config.AuthInfos[userName] = userEntry`, and the context of a cluster.
unfoldable pub add_entry : Text → OidcFlags → InstallOptions → Kubeconfig → CliError ⊎ Kubeconfig
unfolding user_entry
add_entry binary f options config =
    let config = record config {
      auth_infos = insert options.user_name (some (user_entry binary f)) config.auth_infos;
    } in
    if is_empty options.cluster_name
    then inr config
    else if has options.cluster_name config.clusters
    then inr (record config {
      contexts =
          insert options.cluster_name
            (some
              record { cluster = options.cluster_name; auth_info = options.user_name; others = [] })
            config.contexts;
    })
    else inl (cluster_not_found options.cluster_name)

-- The kubeconfig that was written, if one was, or the error.
unfoldable pub save : InstallEnv → InstallOptions → Kubeconfig → CliError ⊎ Option Kubeconfig
save env options config = elim (if options.backup then env.backup_kubeconfig else none) [
  | some e ↦ inl (backup_failed e)
  | none ↦ elim (env.write config) [ some e ↦ inl (write_kubeconfig e) | none ↦ inr (some config) ]
]

unfoldable pub install_loaded :
    InstallEnv → OidcFlags → InstallOptions → Text → Kubeconfig → CliError ⊎ Option Kubeconfig
unfolding auth_test add_entry save
install_loaded env f options binary config =
    if options.dry_run
    then inr none
    else elim (if options.skip_auth_test then none else auth_test env f) [
      | some e ↦ inl e
      | none ↦ elim (add_entry binary f options config) [
        | inl e ↦ inl e
        | inr changed ↦ save env options changed
      ]
    ]

unfoldable pub run_setup_install :
    InstallEnv → OidcFlags → InstallOptions → CliError ⊎ Option Kubeconfig
unfolding install_loaded
run_setup_install env f options = elim env.binary_path [
  | err e ↦ inl (resolve_binary e)
  | ok binary ↦ elim env.loaded [
    | err e ↦ inl (load_kubeconfig e)
    | ok config ↦ install_loaded env f options binary config
  ]
]
