-- ===== src/Cli/Clean.antt =====
-- main.go: what `runClean` does to the runtime directory, which it lists name by name.
use kubelogin_daemon.Prelude.{
  ◌≡◌, refl, Bool, true, false, not, ◌&&◌, ◌==◌, Option, none, some, [], ◌∷◌, if◌then◌else◌, arith,
  Option-cases, inl, inr,
}
use kubelogin_daemon.Text.{Text, codes, text_eq, is_empty}
use kubelogin_daemon.Strings.{trim_suffix}
use kubelogin_daemon.Persist.Files.{Fs, Node, Kind}
use kubelogin_daemon.Persist.{
  Codec, ReadFaults, is_valid_cache_key, all_hex, token_file, load_persisted_token, no_token,
}

-- `filepath.Ext(name)`, for a name without a slash.
unfoldable pub extension : Text → Text
extension [] = []
extension (c ∷ s) =
    let rest = extension s in if not (is_empty rest) then rest else if c == b'.' then c ∷ s else []

-- A name that the loop removes: a cache key with the extension of a token file.
unfoldable pub is_token_name : Text → Bool
unfolding extension
is_token_name name =
    text_eq (extension name) (codes ".json")
    && is_valid_cache_key (trim_suffix name (codes ".json"))

abbrev pub is_dir : Kind → Bool
is_dir Kind.directory = true
is_dir _ = false

-- `stays` are the names whose `os.Remove` fails.
unfoldable pub clean_tokens : (Text → Bool) → Fs → Fs
unfolding is_token_name
clean_tokens stays fs name = elim (fs name) [
  | none ↦ none
  | some n ↦ if not (is_dir n.kind) && is_token_name name && not (stays name) then none else some n
]

extension-token_file : (key : Text) → extension (token_file key) ≡ codes ".json"
unfolding extension
extension-token_file [] = refl
extension-token_file (c ∷ key) = rw (extension-token_file key, extension) refl

trim_suffix-token_file :
    (key : Text) → all_hex key ≡ true → trim_suffix (token_file key) (codes ".json") ≡ key
unfolding trim_suffix text_eq
trim_suffix-token_file [] h = refl
trim_suffix-token_file (c ∷ key) h = ground (arith, trim_suffix-token_file key)

token_file-is_token_name :
    (key : Text) → is_valid_cache_key key ≡ true → is_token_name (token_file key) ≡ true
unfolding is_token_name text_eq
token_file-is_token_name key h =
    rw (extension-token_file key, trim_suffix-token_file key (ground arith), is_token_name)
      (rw h refl)

-- A directory stands under a name.
abbrev pub holds_dir : Option Node → Bool
holds_dir none = false
holds_dir (some n) = is_dir n.kind

removed_name :
    (stays : Text → Bool) (fs : Fs) (name : Text)
    → is_token_name name ≡ true
    → stays name ≡ false
    → holds_dir (fs name) ≡ false
    → clean_tokens stays fs name ≡ none
unfolding clean_tokens
removed_name stays fs name token gone file = elim (Option-cases (fs name)) [
  | inl e ↦ rw (e, clean_tokens) refl
  | inr (n, e) ↦ rw (e, clean_tokens) (ground arith)
]

kept_name :
    (stays : Text → Bool) (fs : Fs) (name : Text)
    → is_token_name name ≡ false
    → clean_tokens stays fs name ≡ fs name
unfolding clean_tokens
kept_name stays fs name other = elim (Option-cases (fs name)) [
  | inl e ↦ rw (e, clean_tokens) refl
  | inr (n, e) ↦ rw (e, clean_tokens) (ground arith)
]

-- After `clean`, the daemon finds no token for a proper key, where its file is not a directory and
-- can be removed; and every name that is not that of a token file is as it was.
pub clean_then_load :
    (codec : Codec) (faults : ReadFaults) (stays : Text → Bool) (fs : Fs) (key name : Text)
    → is_valid_cache_key key ≡ true
    → stays (token_file key) ≡ false
    → holds_dir (fs (token_file key)) ≡ false
    → is_token_name name ≡ false
    → (load_persisted_token codec faults key (clean_tokens stays fs)
        ≡ (clean_tokens stays fs, no_token))
      × (clean_tokens stays fs name ≡ fs name)
unfolding load_persisted_token
clean_then_load codec faults stays fs key name valid gone file other = (
  rw (valid, load_persisted_token)
      (rw (removed_name stays fs (token_file key) (token_file-is_token_name key valid) gone file)
        refl),
  kept_name stays fs name other,
)
