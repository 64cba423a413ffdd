-- ===== src/Cli/Args.antt =====
-- main.go: the loop of `parseExecArgs`. The `i++` with which a flag takes its value out of the
-- next argument is a Boolean that the loop carries: the next argument has been taken.
use kubelogin_daemon.Prelude.{
  Bool, true, false, not, ◌&&◌, ◌||◌, Option, none, some, List, [], ◌∷◌, ltb, if◌then◌else◌,
}
use kubelogin_daemon.Text.{Text, codes, text_eq, has_prefix, to_lower}
use kubelogin_daemon.Strings.{byte_length, cut_at}
use kubelogin_daemon.Refresher.{is_member}
use kubelogin_daemon.Cli.Options.{ℤ, ParsedConfig, empty_config, set_flag}

-- The keys of `boolFlags`.
abbrev pub bool_flags : List Text
bool_flags =
    codes "--skip-open-browser"
    ∷ codes "-skip-open-browser"
    ∷ codes "--force-refresh"
    ∷ codes "-force-refresh"
    ∷ codes "--oidc-use-access-token"
    ∷ codes "-oidc-use-access-token"
    ∷ codes "--oidc-use-pkce"
    ∷ codes "-oidc-use-pkce"
    ∷ codes "--insecure-skip-tls-verify"
    ∷ codes "-insecure-skip-tls-verify"
    ∷ codes "--tls-renegotiation-once"
    ∷ codes "-tls-renegotiation-once"
    ∷ codes "--tls-renegotiation-freely"
    ∷ codes "-tls-renegotiation-freely"
    ∷ []

unfoldable pub is_bool_flag : Text → Bool
is_bool_flag key = is_member key bool_flags

-- `-foo` becomes `--foo`.
unfoldable pub normalize : Text → Text
normalize arg =
    if not (has_prefix arg (codes "--")) && ltb 2 (byte_length arg) then b'-' ∷ arg else arg

-- `key`, `val`, and whether `i++` was executed.
pub record Flag : Type 0 where
  pub key : Text
  pub val : Text
  pub took_next : Bool

-- The next argument as the value of a flag.
unfoldable pub take_value : Text → List Text → Flag
unfolding is_bool_flag
take_value arg [] = record { key = arg; val = []; took_next = false }
take_value arg (following ∷ args) =
    if is_bool_flag arg
    then (let lowered = to_lower following in
        if text_eq lowered (codes "true") || text_eq lowered (codes "false")
        then record { key = arg; val = lowered; took_next = true }
        else record { key = arg; val = []; took_next = false })
    else record { key = arg; val = following; took_next = true }

-- `--flag=value` and `--flag value`.
unfoldable pub read_flag : Text → List Text → Flag
read_flag arg args = elim (cut_at b'=' arg) [
  | some (key, val) ↦ record { key = key; val = val; took_next = false }
  | none ↦ take_value arg args
]

module _ (parse_int : Text → Option ℤ) where
  unfoldable pub parse_args : Bool → ParsedConfig → List Text → ParsedConfig
  unfolding normalize
  parse_args taken cfg [] = cfg
  parse_args true cfg (arg ∷ args) = parse_args false cfg args
  parse_args false cfg (arg ∷ args) =
      let flag = read_flag (normalize arg) args in
      elim (has_prefix arg (codes "-")) [
        | false ↦ parse_args false cfg args
        | true ↦ parse_args flag.took_next (set_flag parse_int flag.key flag.val cfg) args
      ]

  unfoldable pub parse_exec_args : List Text → ParsedConfig
  unfolding parse_args
  parse_exec_args args = parse_args false empty_config args
