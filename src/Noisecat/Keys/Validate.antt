-- ===== src/Noisecat/Keys/Validate.antt =====
-- ValidateStaticKey against what a handshake accepts.
use noisecat.Base.{
  ℕ, ◌≡◌, ◌↔◌, ◌∙◌, ap, refl, true, false, not, Bytes, is_blank, length, ◌==◌, wrapped, ok,
}
use noisecat.Results.{◌>>=◌, ◌>>◌, require, require-eq-ok, require-true, >>=-eq-ok, wrapped-eq-ok}
use noisecat.Noisecat.Names.{dh_curve25519, dh_secp256k1}
use noisecat.Noisecat.Config.{Config}
use noisecat.Noisecat.Keys.{Env, validate_raw, validate_static_key}
use noisecat.Noisecat.Noise.{check_remote_static, bolt8_remote}

module _ (env : Env) where
  validated :
      (b64 : Bytes) (dh : ℕ)
      → validate_static_key env b64 dh ≡ ok tt
      → (not (is_blank b64) ≡ true)
        × ((raw : Bytes) × (env.decode_string b64 ≡ ok raw) × (validate_raw env raw dh ≡ ok tt))
  unfolding validate_static_key
  validated b64 dh h =
      let (given, h1) = require-eq-ok (not (is_blank b64)) _ _ h in
      let (raw, decoded, h2) =
        >>=-eq-ok (wrapped "not valid base64" (env.decode_string b64)) _ h1 in
      (given, (raw, wrapped-eq-ok _ (env.decode_string b64) decoded, h2))

  validates :
      (b64 : Bytes) (dh : ℕ) (raw : Bytes)
      → not (is_blank b64) ≡ true
      → env.decode_string b64 ≡ ok raw
      → validate_raw env raw dh ≡ ok tt
      → validate_static_key env b64 dh ≡ ok tt
  unfolding validate_static_key
  validates b64 dh raw given decoded fits =
      simp (given, decoded, fits, require, wrapped, ◌>>◌, ◌>>=◌) refl

  -- The key that -validate passes for a Curve25519 protocol is one that -rstatic takes, and
  -- conversely.
  pub validate_static_key-check_remote_static :
      (b64 : Bytes)
      → (validate_static_key env b64 dh_curve25519 ≡ ok tt)
        ↔ ((rs : Bytes) × (check_remote_static env b64 ≡ ok rs))
  unfolding check_remote_static validate_raw
  validate_static_key-check_remote_static b64 = (
    λ h.
        let (given, (raw, decoded, fits)) = validated b64 dh_curve25519 h in
        let size = require-true (length raw == 32) _ fits in
        (raw, simp (given, decoded, size, require, wrapped, ◌>>◌, ◌>>=◌) refl),
    λ (rs, h).
        let (given, h1) = require-eq-ok (not (is_blank b64)) _ _ h in
        let (raw, decoded, h2) =
          >>=-eq-ok (wrapped "invalid remote static key" (env.decode_string b64)) _ h1 in
        let (size, h3) = require-eq-ok (length raw == 32) _ _ h2 in
        validates b64 dh_curve25519 raw given (wrapped-eq-ok _ (env.decode_string b64) decoded)
          (simp (size, require) refl),
  )

  -- The key that -validate passes for a secp256k1 protocol is one that a BOLT-8 initiator takes as
  -- -rstatic and that is a point of the curve, and conversely.
  pub validate_static_key-bolt8_remote :
      (c : Config)
      → c.listen ≡ false
      → (validate_static_key env c.r_static dh_secp256k1 ≡ ok tt)
        ↔ ((rs : Bytes) × (bolt8_remote env c ≡ ok rs) × (env.parse_pub_key rs ≡ ok tt))
  unfolding bolt8_remote validate_raw
  validate_static_key-bolt8_remote c client = (
    λ h.
        let (given, (raw, decoded, fits)) = validated c.r_static dh_secp256k1 h in
        let (size, point) = require-eq-ok (length raw == 33) _ _ fits in
        (
          raw,
          simp (client, given, decoded, size, require, wrapped, ◌>>◌, ◌>>=◌) refl,
          wrapped-eq-ok _ (env.parse_pub_key raw) point,
        ),
    λ (rs, h, point).
        let (given, h1) = require-eq-ok (not (is_blank c.r_static)) _ _ (simp client at h) in
        let (raw, decoded, h2) =
          >>=-eq-ok (wrapped "invalid -rstatic" (env.decode_string c.r_static)) _ h1 in
        let (size, h3) = require-eq-ok (length raw == 33) _ _ h2 in
        let same : raw ≡ rs = cc h3 in
        let valid : env.parse_pub_key raw ≡ ok tt = ap env.parse_pub_key same ∙ point in
        validates c.r_static dh_secp256k1 raw given
          (wrapped-eq-ok _ (env.decode_string c.r_static) decoded)
          (simp (size, valid, require, wrapped, ◌>>◌, ◌>>=◌) refl),
  )
