-- ===== src/Cli/Installed.antt =====
-- `setup install`, followed by a command that takes its flags out of the kubeconfig it has written.
use kubelogin_daemon.Prelude.{
  ◌≡◌, ◌≢◌, refl, true, false, not, Option, none, some, List, [], ◌∷◌, if◌then◌else◌, ◌⊎◌, inl, inr,
  arith, ap, ◌∙◌, sym, Bool-cases, Option-cases, Sum-cases,
}
use mathlib.Core.Path.{subst}
use kubelogin_daemon.Text.{Text, text_eq_refl, is_empty}
use kubelogin_daemon.Assoc.{Assoc, insert, lookup-insert, has}
use kubelogin_daemon.Refresher.{Result, err, ok}
use kubelogin_daemon.Cli.Options.{ℤ, auto}
use kubelogin_daemon.Cli.Kubeconfig.{
  Kubeconfig, CliError, find, is_accepted_command, parse_user, parse_oidc_from_kubeconfig,
}
use kubelogin_daemon.Cli.Flags.{
  OidcFlags, no_flags, or_list, fill_in, resolve_from_kubeconfig, key_of,
}
use kubelogin_daemon.Cli.Install.{
  InstallOptions, InstallEnv, user_entry, add_entry, auth_test, save, install_loaded,
  run_setup_install,
}
use kubelogin_daemon.Cli.Parity.{IsInstallable, installed, parse-install_exec_args}

-- What is written is a kubeconfig with the entry added, under the path of the binary.
abbrev Adds : Result Text → OidcFlags → InstallOptions → CliError ⊎ Option Kubeconfig → Type 0
Adds path f options (inl e) = Unit
Adds path f options (inr none) = Unit
Adds path f options (inr (some config)) =
    (binary : Text) × (before : Kubeconfig) × (path ≡ ok binary)
    × (add_entry binary f options before ≡ inr config)

Result-cases : {A : Type 0} (r : Result A) → ((e : Text) × (r ≡ err e)) ⊎ ((a : A) × (r ≡ ok a))
Result-cases (err e) = inl (e, refl)
Result-cases (ok a) = inr (a, refl)

save-Adds :
    (env : InstallEnv) (f : OidcFlags) (options : InstallOptions) (binary : Text)
    (before config : Kubeconfig)
    → env.binary_path ≡ ok binary
    → add_entry binary f options before ≡ inr config
    → Adds env.binary_path f options (save env options config)
unfolding save
save-Adds env f options binary before config path added =
    elim (Option-cases (if options.backup then env.backup_kubeconfig else none)) [
      | inr (e, failed) ↦ rw (failed, save) tt
      | inl done ↦
          rw (done, save)
            (elim (Option-cases (env.write config)) [
              | inr (e, failed) ↦ rw failed tt
              | inl written ↦ rw written (binary, before, path, added)
            ])
    ]

install_loaded-Adds :
    (env : InstallEnv) (f : OidcFlags) (options : InstallOptions) (binary : Text)
    (config : Kubeconfig)
    → env.binary_path ≡ ok binary
    → Adds env.binary_path f options (install_loaded env f options binary config)
unfolding install_loaded
install_loaded-Adds env f options binary config path = elim (Bool-cases options.dry_run) [
  | inl dry ↦ rw (dry, install_loaded) tt
  | inr wet ↦
      rw (wet, install_loaded)
        (elim (Option-cases (if options.skip_auth_test then none else auth_test env f)) [
          | inr (e, failed) ↦ rw failed tt
          | inl passed ↦ rw passed (elim (Sum-cases (add_entry binary f options config)) [
            | inl (e, failed) ↦ rw failed tt
            | inr (changed, added) ↦
                rw added (save-Adds env f options binary config changed path added)
          ])
        ])
]

run_setup_install-Adds :
    (env : InstallEnv) (f : OidcFlags) (options : InstallOptions)
    → Adds env.binary_path f options (run_setup_install env f options)
unfolding run_setup_install
run_setup_install-Adds env f options = elim (Result-cases env.binary_path) [
  | inl (e, failed) ↦ rw (failed, run_setup_install) tt
  | inr (binary, path) ↦ elim (Result-cases env.loaded) [
    | inl (e, failed) ↦ rw (path, failed, run_setup_install) tt
    | inr (config, loaded) ↦
        subst (λ r. Adds env.binary_path f options r)
          (sym (rw (path, loaded, run_setup_install) refl))
          (install_loaded-Adds env f options binary config path)
  ]
]

inl_not_inr {ℓ κ} : {A : Type ℓ} {B : Type κ} {a : A} {b : B} → inl a ≢ inr b
inl_not_inr h = absurd (ground arith)

inr_injective {ℓ κ} : {A : Type ℓ} {B : Type κ} {a b : B} → ◌≡◌ {A = A ⊎ B} (inr a) (inr b) → a ≡ b
inr_injective h = ground arith

ok_injective : {A : Type 0} {a b : A} → ok a ≡ ok b → a ≡ b
ok_injective h = ground arith

find-insert :
    {A : Type 0} (k : Text) (a : A) (m : Assoc (Option A)) → find k (insert k (some a) m) ≡ some a
find-insert k a m = ground (arith, lookup-insert k k (some a) m, text_eq_refl k)

-- The entries of a cluster and its user.
abbrev Holds : Text → OidcFlags → InstallOptions → Kubeconfig → Type 0
Holds binary f options config =
    (find options.cluster_name config.contexts
      ≡ some record { cluster = options.cluster_name; auth_info = options.user_name; others = [] })
    × (find options.user_name config.auth_infos ≡ some (user_entry binary f))

add_entry-Holds :
    (binary : Text) (f : OidcFlags) (options : InstallOptions) (before config : Kubeconfig)
    → is_empty options.cluster_name ≡ false
    → add_entry binary f options before ≡ inr config
    → Holds binary f options config
unfolding add_entry
add_entry-Holds binary f options before config named h =
    elim (Bool-cases (has options.cluster_name before.clusters)) [
      | inr missing ↦ absurd (inl_not_inr (rw (named, missing, add_entry) at h))
      | inl present ↦
          subst (Holds binary f options) (inr_injective (rw (named, present, add_entry) at h)) (
            find-insert options.cluster_name _ before.contexts,
            find-insert options.user_name _ before.auth_infos,
          )
    ]

or_list_empty {ℓ} : {A : Type ℓ} (xs : List A) → or_list [] xs ≡ xs
or_list_empty [] = refl
or_list_empty (x ∷ xs) = refl

or_username : (s : Text) → (if not (is_empty s) then s else []) ≡ s
or_username [] = refl
or_username (c ∷ s) = refl

-- The flags that `setup install` cannot write are at their defaults.
abbrev pub IsDefault : OidcFlags → Type 0
IsDefault f =
    (f.redirect_url ≡ []) × (f.pkce_method ≡ auto) × (f.tls_config ≡ (no_flags []).tls_config)

fill_in-key_of :
    (f : OidcFlags) (context : Text)
    → IsDefault f
    → key_of (fill_in (no_flags context) (installed f)) ≡ key_of f
unfolding fill_in key_of
fill_in-key_of f context (redirect, pkce, tls) =
    rw
      (
        redirect,
        pkce,
        tls,
        or_list_empty f.extra_scopes,
        or_list_empty f.extra_params,
        or_list_empty f.request_headers,
        or_username f.username,
      )
      refl

parse_held :
    (parse_int : Text → Option ℤ) (binary : Text) (f : OidcFlags) (options : InstallOptions)
    (config : Kubeconfig)
    → is_accepted_command binary ≡ true
    → is_empty options.cluster_name ≡ false
    → IsInstallable f
    → Holds binary f options config
    → parse_oidc_from_kubeconfig parse_int (ok config) options.cluster_name ≡ inr (installed f)
unfolding parse_oidc_from_kubeconfig parse_user user_entry
parse_held parse_int binary f options config accepted named fits (context, entry) =
    rw (named, parse_oidc_from_kubeconfig)
      (rw (named, context)
        (rw entry (rw (accepted, parse_user) (ap inr (parse-install_exec_args parse_int f fits)))))

written_entry :
    (env : InstallEnv) (f : OidcFlags) (options : InstallOptions) (binary : Text)
    (config : Kubeconfig)
    → env.binary_path ≡ ok binary
    → is_empty options.cluster_name ≡ false
    → run_setup_install env f options ≡ inr (some config)
    → Holds binary f options config
written_entry env f options binary config path named h =
    let (found, before, same, added) =
      subst (Adds env.binary_path f options) h (run_setup_install-Adds env f options) in
    subst (λ b. Holds b f options config) (ok_injective (sym same ∙ path))
      (add_entry-Holds found f options before config named added)

-- After `setup install` has written a kubeconfig with a context for a cluster, `login`, `check`
-- and `refresh` with `--context` find this context, and make the same `tokencache.Key` from it that
-- the flags of the installation make; the checksum of this key is not considered. The binary's name is one that the commands accept, the flags can
-- be written as arguments, and the flags that are not written are at their defaults.
pub install_then_resolve :
    (parse_int : Text → Option ℤ) (env : InstallEnv) (f : OidcFlags) (options : InstallOptions)
    (binary : Text) (config : Kubeconfig)
    → env.binary_path ≡ ok binary
    → is_accepted_command binary ≡ true
    → is_empty options.cluster_name ≡ false
    → IsInstallable f
    → IsDefault f
    → run_setup_install env f options ≡ inr (some config)
    → (g : OidcFlags) × (resolve_from_kubeconfig parse_int
          (ok config)
          (no_flags options.cluster_name)
        ≡ inr g)
      × (key_of g ≡ key_of f)
unfolding resolve_from_kubeconfig
install_then_resolve parse_int env f options binary config path accepted named fits defaults h = (
  fill_in (no_flags options.cluster_name) (installed f),
  rw
      (
        parse_held parse_int binary f options config accepted named fits
            (written_entry env f options binary config path named h),
        resolve_from_kubeconfig,
      )
      refl,
  fill_in-key_of f options.cluster_name defaults,
)
