-- ===== src/Jwt/Decoding.antt =====
-- pkg/jwt/decode.go: the payload of a token that was put together by the rules is found again.
use kubelogin_daemon.Prelude.{
  ℕ, suc, ◌+◌, ◌-◌, ◌*◌, ◌/◌, ◌%◌, ◌<◌, ◌≡◌, ◌≢◌, refl, inl, inr, Option, none, some, List, [], ◌∷◌,
  ◌++◌, arith, ltb, ◌==◌, if◌then◌else◌, All, Option-cases,
}
use kubelogin_daemon.Text.{Text}
use kubelogin_daemon.Jwt.{
  ok, err, split_n, base64_value, base64_values, base64_bytes, decode_payload,
  decode_payload_as_raw_json, RawClaims, parse_token_expiry, JwtError, expiry_of,
}

-- RFC 4648, section 5: the character of a value, and the encoding with no padding.
unfoldable pub base64_char : ℕ → ℕ
base64_char v =
    if ltb v 26
    then v + 65
    else if ltb v 52
    then v + 71
    else if ltb v 62
    then v - 4
    else if v == 62
    then 45
    else 95

unfoldable pub base64_encode : Text → Text
unfolding base64_char
base64_encode [] = []
base64_encode (x ∷ []) = base64_char (x / 4) ∷ base64_char (x % 4 * 16) ∷ []
base64_encode (x ∷ y ∷ []) =
    base64_char (x / 4) ∷ base64_char (x % 4 * 16 + y / 16) ∷ base64_char (y % 16 * 4) ∷ []
base64_encode (x ∷ y ∷ z ∷ bytes) =
    base64_char (x / 4)
    ∷ base64_char (x % 4 * 16 + y / 16)
    ∷ base64_char (y % 16 * 4 + z / 64)
    ∷ base64_char (z % 64)
    ∷ base64_encode bytes

base64_value-char : (v : ℕ) → v < 64 → base64_value (base64_char v) ≡ some v
unfolding base64_value base64_char
base64_value-char v h = ground arith

base64_char_plain :
    (v : ℕ) → v < 64 → (base64_char v ≢ 10) × (base64_char v ≢ 13) × (base64_char v ≢ b'.')
unfolding base64_char
base64_char_plain v h = ground arith

base64_values-cons :
    (v : ℕ) (s : Text) (vs : List ℕ)
    → v < 64
    → base64_values s ≡ some vs
    → base64_values (base64_char v ∷ s) ≡ some (v ∷ vs)
unfolding base64_values
base64_values-cons v s vs h e = ground (arith, base64_value-char v h, base64_char_plain v h)

abbrev IsByte : ℕ → Type 0
IsByte x = x < 256

-- The values that the encoding of bytes stands for.
sextets : Text → List ℕ
sextets [] = []
sextets (x ∷ []) = (x / 4) ∷ (x % 4 * 16) ∷ []
sextets (x ∷ y ∷ []) = (x / 4) ∷ (x % 4 * 16 + y / 16) ∷ (y % 16 * 4) ∷ []
sextets (x ∷ y ∷ z ∷ bytes) =
    (x / 4) ∷ (x % 4 * 16 + y / 16) ∷ (y % 16 * 4 + z / 64) ∷ (z % 64) ∷ sextets bytes

base64_values-encode :
    (bytes : Text) → All IsByte bytes → base64_values (base64_encode bytes) ≡ some (sextets bytes)
unfolding base64_encode sextets
base64_values-encode [] h = unfold base64_values in refl
base64_values-encode (x ∷ []) h =
    base64_values-cons _ _ _ (omega arith)
      (base64_values-cons _ _ _ (omega arith) (unfold base64_values in refl))
base64_values-encode (x ∷ y ∷ []) h = base64_values-cons _ _ _ (omega arith) (
    base64_values-cons _ _ _ (omega arith)
      (base64_values-cons _ _ _ (omega arith) (unfold base64_values in refl)))
base64_values-encode (x ∷ y ∷ z ∷ bytes) h = base64_values-cons _ _ _ (omega arith) (
    base64_values-cons _ _ _ (omega arith) (
      base64_values-cons _ _ _ (omega arith)
        (base64_values-cons _ _ _ (omega arith) (base64_values-encode bytes h.1.1.1))))

base64_bytes-sextets : (bytes : Text) → All IsByte bytes → base64_bytes (sextets bytes) ≡ some bytes
unfolding base64_bytes sextets
base64_bytes-sextets [] h = refl
base64_bytes-sextets (x ∷ []) h = ground arith
base64_bytes-sextets (x ∷ y ∷ []) h = ground arith
base64_bytes-sextets (x ∷ y ∷ z ∷ bytes) h = ground (arith, base64_bytes-sextets bytes h.1.1.1)

-- Decoding the unpadded URL encoding of any bytes gives these bytes.
pub decode_payload-encode :
    (bytes : Text) → All IsByte bytes → decode_payload (base64_encode bytes) ≡ ok bytes
unfolding decode_payload
decode_payload-encode bytes h =
    ground (arith, base64_values-encode bytes h, base64_bytes-sextets bytes h)

-- Text without a dot.
abbrev pub Dotless : Text → Type 0
Dotless = All (λ c. c ≢ b'.')

split_n-Dotless :
    (n : ℕ) (part rest : Text)
    → Dotless part
    → split_n (suc n) (part ++ (b'.' ∷ rest)) ≡ part ∷ split_n n rest
unfolding split_n
split_n-Dotless n [] rest h = refl
split_n-Dotless n (c ∷ part) rest h = ground (arith, split_n-Dotless n part rest h.1)

split_n_last : (s : Text) → split_n 0 s ≡ s ∷ []
unfolding split_n
split_n_last [] = refl
split_n_last (c ∷ s) = refl

plain : (v : ℕ) → v < 64 → base64_char v ≢ b'.'
plain v h = (base64_char_plain v h).2

base64_encode-Dotless : (bytes : Text) → All IsByte bytes → Dotless (base64_encode bytes)
unfolding base64_encode
base64_encode-Dotless [] h = tt
base64_encode-Dotless (x ∷ []) h =
    (plain (x / 4) (omega arith), (plain (x % 4 * 16) (omega arith), tt))
base64_encode-Dotless (x ∷ y ∷ []) h = (
  plain (x / 4) (omega arith),
  (plain (x % 4 * 16 + y / 16) (omega arith), (plain (y % 16 * 4) (omega arith), tt)),
)
base64_encode-Dotless (x ∷ y ∷ z ∷ bytes) h = (
  plain (x / 4) (omega arith),
  (
    plain (x % 4 * 16 + y / 16) (omega arith),
    (
      plain (y % 16 * 4 + z / 64) (omega arith),
      (plain (z % 64) (omega arith), base64_encode-Dotless bytes h.1.1.1),
    ),
  ),
)

-- The payload is found in a token `header.payload.signature`, whatever the signature is (it may
-- hold dots), as long as the header has no dot.
decode_payload_as_raw_json-encode :
    (header payload signature : Text)
    → Dotless header
    → All IsByte payload
    → decode_payload_as_raw_json (header ++ (b'.' ∷ (base64_encode payload ++ (b'.' ∷ signature))))
      ≡ ok payload
unfolding decode_payload_as_raw_json
decode_payload_as_raw_json-encode header payload signature d h =
    rw
      (
        split_n-Dotless 1 header (base64_encode payload ++ (b'.' ∷ signature)) d,
        split_n-Dotless 0 (base64_encode payload) signature (base64_encode-Dotless payload h),
        split_n_last signature,
      )
      (decode_payload-encode payload h)

-- Of a token `header.payload.signature` whose header has no dot, `parseTokenExpiry` returns the
-- time of the `exp` claim, an error where the payload does not parse, and an error where that time
-- is the zero time, as it is for a claim that is missing.
parse_token_expiry-encode :
    (parse_json : Text → Option RawClaims) (header payload signature : Text)
    → Dotless header
    → All IsByte payload
    → parse_token_expiry parse_json
        (header ++ (b'.' ∷ (base64_encode payload ++ (b'.' ∷ signature))))
      ≡ (elim (parse_json payload) [
        | none ↦ err JwtError.invalid_json
        | some c ↦
            if expiry_of c.expires_at == 0
            then err JwtError.no_exp_claim
            else ok (expiry_of c.expires_at)
      ])
unfolding parse_token_expiry
parse_token_expiry-encode parse_json header payload signature d h =
    rw (decode_payload_as_raw_json-encode header payload signature d h)
      (elim (Option-cases (parse_json payload)) [ inl e ↦ rw e | inr (c, e) ↦ rw e ])
