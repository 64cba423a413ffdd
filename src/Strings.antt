-- ===== src/Strings.antt =====
-- More of Go's `strings` and `path/filepath` packages, as the command line of main.go uses them.
use kubelogin_daemon.Prelude.{
  ℕ, ◌+◌, ◌≡◌, refl, Bool, true, not, ◌&&◌, ◌||◌, Option, none, some, List, [], ◌∷◌, ◌++◌, arith,
  leb, ltb, ◌==◌, if◌then◌else◌,
}
use kubelogin_daemon.Text.{Text, codes, text_eq, is_empty}

-- The bytes of a rune in UTF-8, and `len(s)`.
abbrev pub rune_bytes : ℕ → ℕ
rune_bytes c = if ltb c 0x80 then 1 else if ltb c 0x800 then 2 else if ltb c 0x10000 then 3 else 4

unfoldable pub byte_length : Text → ℕ
byte_length [] = 0
byte_length (c ∷ s) = rune_bytes c + byte_length s

-- `strings.IndexByte(s, b)` with the slices before and behind the byte.
unfoldable pub cut_at : ℕ → Text → Option (Text × Text)
cut_at b [] = none
cut_at b (c ∷ s) =
    if c == b
    then some ([], s)
    else elim (cut_at b s) [ none ↦ none | some (p, q) ↦ some (c ∷ p, q) ]

-- `strings.Split(s, sep)` of one character: the first piece, and the pieces behind it.
unfoldable pub split_first : ℕ → Text → Text × List Text
split_first b [] = ([], [])
split_first b (c ∷ s) =
    let (p, ps) = split_first b s in if c == b then ([], p ∷ ps) else (c ∷ p, ps)

unfoldable pub split : ℕ → Text → List Text
unfolding split_first
split b s = let (p, ps) = split_first b s in p ∷ ps

-- `unicode.IsSpace`.
unfoldable pub is_space : ℕ → Bool
is_space c =
    (leb 9 c && leb c 13)
    || c == 0x20
    || c == 0x85
    || c == 0xA0
    || c == 0x1680
    || (leb 0x2000 c && leb c 0x200A)
    || c == 0x2028
    || c == 0x2029
    || c == 0x202F
    || c == 0x205F
    || c == 0x3000

unfoldable pub trim_left : Text → Text
trim_left [] = []
trim_left (c ∷ s) = if is_space c then trim_left s else c ∷ s

unfoldable pub trim_right : Text → Text
trim_right [] = []
trim_right (c ∷ s) = let t = trim_right s in if is_space c && is_empty t then [] else c ∷ t

-- `strings.TrimSpace(s)`.
unfoldable pub trim_space : Text → Text
trim_space s = trim_left (trim_right s)

-- The character does not occur.
unfoldable pub lacks : ℕ → Text → Bool
lacks b [] = true
lacks b (c ∷ s) = not (c == b) && lacks b s

-- `strings.TrimSuffix(s, p)`.
unfoldable pub trim_suffix : Text → Text → Text
trim_suffix [] p = []
trim_suffix (c ∷ s) p = if text_eq (c ∷ s) p then [] else c ∷ trim_suffix s p

unfoldable pub trim_slashes : Text → Text
trim_slashes [] = []
trim_slashes (c ∷ s) = let t = trim_slashes s in if c == b'/' && is_empty t then [] else c ∷ t

unfoldable pub last_element : Text → Text
last_element [] = []
last_element (c ∷ s) = if lacks b'/' (c ∷ s) then c ∷ s else last_element s

-- `filepath.Base(path)` where the separator is a slash.
unfoldable pub base : Text → Text
base path =
    if is_empty path
    then codes "."
    else let name = last_element (trim_slashes path) in if is_empty name then codes "/" else name

-- `fmt.Sprintf("%s=%s", k, v)`.
abbrev pub assign : Text → Text → Text
assign k v = k ++ b'=' ∷ v

pub cut_at-assign : (k v : Text) → lacks b'=' k ≡ true → cut_at b'=' (assign k v) ≡ some (k, v)
unfolding cut_at lacks
cut_at-assign [] v h = refl
cut_at-assign (c ∷ k) v h = ground (arith, cut_at-assign k v)

pub cut_at_lacking : (b : ℕ) (s : Text) → lacks b s ≡ true → cut_at b s ≡ none
unfolding cut_at lacks
cut_at_lacking b [] h = refl
cut_at_lacking b (c ∷ s) h = ground (arith, cut_at_lacking b s)

pub split_first_lacking : (b : ℕ) (s : Text) → lacks b s ≡ true → split_first b s ≡ (s, [])
unfolding split_first lacks
split_first_lacking b [] h = refl
split_first_lacking b (c ∷ s) h = ground (arith, split_first_lacking b s)

pub split_lacking : (b : ℕ) (s : Text) → lacks b s ≡ true → split b s ≡ s ∷ []
unfolding split
split_lacking b s h = rw (split_first_lacking b s h) refl
