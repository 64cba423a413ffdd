-- ===== src/Jwt.antt =====
-- pkg/jwt/decode.go and pkg/jwt/token.go, with `parseTokenExpiry` of pkg/daemon/server.go: the
-- claims of a token, which is not verified here. The JSON parser is an argument.
pub mod Decoding
mod Examples
use kubelogin_daemon.Prelude.{
  ℕ, zero, suc, ◌+◌, ◌-◌, ◌*◌, ◌/◌, ◌%◌, Bool, true, false, not, ◌&&◌, ◌||◌, Option, none, some,
  List, [], ◌∷◌, ltb, leb, ◌==◌, length, if◌then◌else◌,
}
use kubelogin_daemon.Text.{Text}
use kubelogin_daemon.State.{Time}

pub data JwtError : Type 0 where
  wrong_segments : ℕ → JwtError
  invalid_base64 invalid_json no_exp_claim : JwtError

pub data Result {α} (S : Type α) : Type α where
  err : JwtError → Result S
  ok : S → Result S

infixl 5 ◌>>=◌
abbrev pub ◌>>=◌ {α β} : {S : Type α} {T : Type β} → Result S → (S → Result T) → Result T
err failure >>= next = err failure
ok value >>= next = next value

abbrev pub cons_first : ℕ → List Text → List Text
cons_first c [] = (c ∷ []) ∷ []
cons_first c (p ∷ ps) = (c ∷ p) ∷ ps

-- `strings.SplitN(s, ".", n + 1)`: at most `n` dots are taken as separators.
unfoldable pub split_n : ℕ → Text → List Text
split_n n [] = [] ∷ []
split_n zero (c ∷ s) = (c ∷ s) ∷ []
split_n (suc n) (c ∷ s) =
    let whole = cons_first c (split_n (suc n) s) in
    let split = [] ∷ split_n n s in if c == b'.' then split else whole

-- The value of a character of the URL alphabet of base64.
unfoldable pub base64_value : ℕ → Option ℕ
base64_value c =
    if leb b'A' c && leb c b'Z'
    then some (c - 65)
    else if leb b'a' c && leb c b'z'
    then some (c - 71)
    else if leb b'0' c && leb c b'9'
    then some (c + 4)
    else if c == b'-'
    then some 62
    else if c == b'_'
    then some 63
    else none

abbrev is_newline : ℕ → Bool
is_newline c = c == 10 || c == 13

-- The values of the characters. The decoder passes over line ends.
unfoldable pub base64_values : Text → Option (List ℕ)
unfolding base64_value
base64_values [] = some []
base64_values (c ∷ s) =
    let rest = base64_values s in
    if is_newline c then rest else elim (base64_value c) [
      | none ↦ none
      | some v ↦ elim rest [ none ↦ none | some vs ↦ some (v ∷ vs) ]
    ]

-- Four values give three bytes; the bits that are left over at the end are dropped.
unfoldable pub base64_bytes : List ℕ → Option Text
base64_bytes [] = some []
base64_bytes (a ∷ []) = none
base64_bytes (a ∷ b ∷ []) = some ((a * 4 + b / 16) ∷ [])
base64_bytes (a ∷ b ∷ c ∷ []) = some ((a * 4 + b / 16) ∷ (b % 16 * 16 + c / 4) ∷ [])
base64_bytes (a ∷ b ∷ c ∷ d ∷ vs) = elim (base64_bytes vs) [
  | none ↦ none
  | some bytes ↦ some ((a * 4 + b / 16) ∷ (b % 16 * 16 + c / 4) ∷ (c % 4 * 64 + d) ∷ bytes)
]

abbrev bytes_of : Option (List ℕ) → Result Text
bytes_of none = err invalid_base64
bytes_of (some vs) = elim (base64_bytes vs) [ none ↦ err invalid_base64 | some b ↦ ok b ]

-- `decodePayload`.
unfoldable pub decode_payload : Text → Result Text
unfolding base64_values base64_bytes
decode_payload payload = bytes_of (base64_values payload)

abbrev second_of_three : List Text → Result Text
second_of_three (a ∷ b ∷ c ∷ []) = ok b
second_of_three parts = err (wrong_segments (length parts))

-- `DecodePayloadAsRawJSON`.
unfoldable pub decode_payload_as_raw_json : Text → Result Text
unfolding split_n decode_payload
decode_payload_as_raw_json s = do payload ← second_of_three (split_n 2 s); decode_payload payload

-- An `int64` claim: `before n` is -(n + 1).
pub data Seconds : Type 0 where
  since before : ℕ → Seconds

pub record RawClaims : Type 0 where
  pub subject : Text
  pub expires_at : Seconds

pub record Claims : Type 0 where
  pub subject : Text
  pub expiry : Time

-- The seconds from the zero time, in the year 1, to 1970.
abbrev unix_epoch : ℕ
unix_epoch = 62_135_596_800

-- `time.Unix(s, 0)`, for times that are not before the zero time.
abbrev pub unix_time : Seconds → Time
unix_time (since n) = (unix_epoch + n) * 1_000_000_000
unix_time (before n) = (unix_epoch - n - 1) * 1_000_000_000

-- A missing `exp` decodes to 0, and gives the zero time.
abbrev pub expiry_of : Seconds → Time
expiry_of (since zero) = 0
expiry_of s = unix_time s

abbrev claims_of : Option RawClaims → Result Claims
claims_of none = err invalid_json
claims_of (some c) = ok (record { subject = c.subject; expiry = expiry_of c.expires_at })

module _ (parse_json : Text → Option RawClaims) where
  -- `DecodeWithoutVerify`.
  unfoldable pub decode_without_verify : Text → Result Claims
  unfolding decode_payload_as_raw_json
  decode_without_verify s = do
    payload ← decode_payload_as_raw_json s
    claims_of (parse_json payload)

  -- `parseTokenExpiry`.
  unfoldable pub parse_token_expiry : Text → Result Time
  unfolding decode_without_verify
  parse_token_expiry token = do
    claims ← decode_without_verify token
    (if claims.expiry == 0 then err no_exp_claim else ok claims.expiry)

-- `IsExpired`.
pub is_expired : Claims → Time → Bool
is_expired c now = ltb c.expiry now
