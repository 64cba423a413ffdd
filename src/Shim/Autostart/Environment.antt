-- ===== src/Shim/Autostart/Environment.antt =====
-- The variables that pkg/shim/autostart_common.go hands to the daemon it starts.
use kubelogin_daemon.Prelude.{◌≡◌, refl, Option, none, some, List, [], ◌∷◌, All, ◌⊎◌, inl, inr}
use kubelogin_daemon.Text.{Text}
use kubelogin_daemon.Strings.{assign}
use kubelogin_daemon.Shim.Autostart.{env_whitelist, kept_env, sanitized_env}

abbrev pub IsOneOf : Text → List Text → Type 0
IsOneOf key [] = ⊥
IsOneOf key (k ∷ keys) = (key ≡ k) ⊎ IsOneOf key keys

-- An entry `key=value` with a key of the list, at the value that the shim has.
abbrev pub IsPassedOn : (Text → Option Text) → List Text → Text → Type 0
IsPassedOn env keys entry =
    (key : Text) × (val : Text) × IsOneOf key keys × (env key ≡ some val) × (entry ≡ assign key val)

widen :
    (env : Text → Option Text) (key : Text) (keys entries : List Text)
    → All (IsPassedOn env keys) entries
    → All (IsPassedOn env (key ∷ keys)) entries
widen env key keys [] h = tt
widen env key keys (entry ∷ entries) ((k, v, mem, at, eq), rest) =
    ((k, v, inr mem, at, eq), widen env key keys entries rest)

kept_env-IsPassedOn :
    (env : Text → Option Text) (keys : List Text) → All (IsPassedOn env keys) (kept_env env keys)
unfolding kept_env
kept_env-IsPassedOn env [] = tt
kept_env-IsPassedOn env (key ∷ keys) =
    with_value (kept_env env keys) (env key) refl
      (widen env key keys (kept_env env keys) (kept_env-IsPassedOn env keys))
  where
    with_value :
        (entries : List Text) (o : Option Text)
        → env key ≡ o
        → All (IsPassedOn env (key ∷ keys)) entries
        → All
            (IsPassedOn env (key ∷ keys))
            (elim o [ none ↦ entries | some val ↦ assign key val ∷ entries ])
    with_value entries none e h = h
    with_value entries (some val) e h = ((key, val, inl refl, e, refl), h)

-- Every variable of the environment of the daemon that a shim starts is a variable of the
-- whitelist, at the value that the shim itself has.
pub sanitized_env-IsPassedOn :
    (env : Text → Option Text) → All (IsPassedOn env env_whitelist) (sanitized_env env)
unfolding sanitized_env
sanitized_env-IsPassedOn env = kept_env-IsPassedOn env env_whitelist
