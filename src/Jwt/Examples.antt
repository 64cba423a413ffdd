-- ===== src/Jwt/Examples.antt =====
-- The theorems on pkg/jwt/decode.go at a concrete token.
use kubelogin_daemon.Prelude.{◌≡◌, refl, [], some, Option}
use kubelogin_daemon.Text.{Text, codes}
use kubelogin_daemon.Jwt.{RawClaims, Seconds}
use kubelogin_daemon.Jwt.Decoding.{base64_encode}

abbrev claims : Text
claims = codes "{\"exp\":9}"

abbrev parse_nine : Text → Option RawClaims
parse_nine s = some (record { subject = []; expires_at = Seconds.since 9 })

-- As `base64url` prints it.
claims_encoded : base64_encode claims ≡ codes "eyJleHAiOjl9"
unfolding base64_encode
claims_encoded = refl
