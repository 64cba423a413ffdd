-- ===== src/Persist/Samples.antt =====
-- Test data for pkg/daemon/persist.go: a codec that stands for JSON, and calls that all succeed.
use kubelogin_daemon.Prelude.{
  ℕ, zero, suc, ◌≡◌, refl, true, false, Option, none, some, [], ◌∷◌, ◌++◌, arith, length,
}
use kubelogin_daemon.Text.{Text, is_ascii}
use kubelogin_daemon.Persist.{Codec, Faults, PersistedToken}

-- The version, the length of the first token, and the two tokens.
abbrev plain_encode : PersistedToken → Text
plain_encode t = t.format_version ∷ length t.id_token ∷ (t.id_token ++ t.refresh_token)

abbrev split_at : ℕ → Text → Text × Text
split_at zero s = ([], s)
split_at (suc n) [] = ([], [])
split_at (suc n) (c ∷ s) = let (a, b) = split_at n s in (c ∷ a, b)

abbrev plain_decode : Text → Option PersistedToken
plain_decode (v ∷ n ∷ s) =
    some
      (record { format_version = v; id_token = (split_at n s).0; refresh_token = (split_at n s).1 })
plain_decode _ = none

split_at-append : (s t : Text) → split_at (length s) (s ++ t) ≡ (s, t)
split_at-append [] t = refl
split_at-append (c ∷ s) t = ground (arith, split_at-append s t)

pub plain_round_trip :
    (t : PersistedToken)
    → is_ascii t.id_token ≡ true
    → is_ascii t.refresh_token ≡ true
    → plain_decode (plain_encode t) ≡ some t
plain_round_trip t a b = ground (arith, split_at-append t.id_token t.refresh_token)

abbrev pub plain_codec : Codec
plain_codec = record {
  encode = plain_encode;
  decode = plain_decode;
  decode-encode = plain_round_trip;
}

abbrev pub no_faults : Faults
no_faults = record {
  mkdir_fails = false;
  create_fails = false;
  chmod_fails = false;
  write_fails = none;
  sync_fails = false;
  close_fails = false;
  rename_fails = false;
  remove_fails = false;
  harden_fails = false;
}
