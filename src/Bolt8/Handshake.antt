-- ===== src/Bolt8/Handshake.antt =====
-- pkg/transport/bolt8/handshake.go: the three acts, from either side. `gen` is what
-- secp256k1.GeneratePrivateKey returns; it is asked only where no ephemeral key is injected.
use noisecat.Base.{
  ◌++◌, true, false, Option, none, some, [], ◌∷◌, Bytes, length, slice, get_or, ◌==◌, Result, ok,
  Error, Action, ◌>>=◌, ◌>>◌, pure, lift, or_fail, guard, wrapped, wrapping, String, Stream,
  read_full, write_all,
}
use noisecat.Bolt8.Primitives.{
  Library, mix_hash, hkdf_expand, ecdh, encrypt_with_ad, decrypt_with_ad, initial_state,
}

module _ (l : Library) where
  open l use {PrivateKey, PublicKey, pub_key, serialize_compressed, parse_pub_key}

  unfoldable pub local_static_pub : PrivateKey → Bytes
  local_static_pub priv = serialize_compressed (pub_key priv)

  unfoldable pub choose_ephemeral : Result PrivateKey → Option PrivateKey → Result PrivateKey
  choose_ephemeral gen none = wrapped "bolt8: generate ephemeral" gen
  choose_ephemeral gen (some e) = ok e

  unfoldable pub parsed : String → Bytes → Action Stream PublicKey
  parsed msg b = or_fail (parse_pub_key b) (Error.wrap msg (Error.text "invalid public key"))

  -- Act 1, written: the ephemeral key, and (h, ck) behind it.
  unfoldable pub initiator_act1 :
      Result PrivateKey → PublicKey → Option PrivateKey → Action Stream (PrivateKey × Bytes × Bytes)
  unfolding choose_ephemeral
  initiator_act1 gen remote_static ephemeral = do
    let (h0, ck0) = initial_state l [] (serialize_compressed remote_static) true
    e ← lift (choose_ephemeral gen ephemeral)
    let e_pub = serialize_compressed (pub_key e)
    let h1 = mix_hash l h0 e_pub
    let (ck1, temp_k1) = hkdf_expand l ck0 (ecdh l e remote_static)
    c ← lift (encrypt_with_ad l temp_k1 0 h1 [])
    wrapping "bolt8: write act 1" (write_all (0 ∷ (e_pub ++ c)))
    pure (e, mix_hash l h1 c, ck1)

  -- Act 2, read: the responder's ephemeral key, h, ck and the key that act 3 uses again.
  unfoldable pub initiator_act2 :
      PrivateKey → Bytes → Bytes → Action Stream (PublicKey × Bytes × Bytes × Bytes)
  unfolding parsed
  initiator_act2 e h0 ck0 = do
    buf ← wrapping "bolt8: read act 2" (read_full 50)
    guard (get_or buf 0 0 == 0) (Error.text "bolt8: unsupported act 2 version")
    re ← parsed "bolt8: parse act 2 ephemeral" (slice buf 1 34)
    let h1 = mix_hash l h0 (slice buf 1 34)
    let (ck1, temp_k2) = hkdf_expand l ck0 (ecdh l e re)
    _ ← lift (wrapped "bolt8: decrypt act 2" (decrypt_with_ad l temp_k2 0 h1 (slice buf 34 50)))
    pure (re, mix_hash l h1 (slice buf 34 50), ck1, temp_k2)

  -- Act 3, written: the chaining key and the final hash.
  unfoldable pub initiator_act3 :
      PrivateKey → PublicKey → Bytes → Bytes → Bytes → Action Stream (Bytes × Bytes)
  initiator_act3 local_static re h0 ck0 temp_k2 = do
    c_static ← lift (encrypt_with_ad l temp_k2 1 h0 (local_static_pub local_static))
    let h1 = mix_hash l h0 c_static
    let (ck1, temp_k3) = hkdf_expand l ck0 (ecdh l local_static re)
    tag ← lift (encrypt_with_ad l temp_k3 0 h1 [])
    wrapping "bolt8: write act 3" (write_all (0 ∷ (c_static ++ tag)))
    pure (ck1, h1)

  unfoldable pub run_initiator :
      Result PrivateKey → PrivateKey → PublicKey → Option PrivateKey → Action Stream (Bytes × Bytes)
  run_initiator gen local_static remote_static ephemeral = do
    (e, h1, ck1) ← initiator_act1 gen remote_static ephemeral
    (re, h2, ck2, temp_k2) ← initiator_act2 e h1 ck1
    initiator_act3 local_static re h2 ck2 temp_k2

  -- Act 1, read: the initiator's ephemeral key, and (h, ck).
  unfoldable pub responder_act1 : PrivateKey → Action Stream (PublicKey × Bytes × Bytes)
  unfolding parsed
  responder_act1 local_static = do
    let (h0, ck0) = initial_state l (local_static_pub local_static) [] false
    buf ← wrapping "bolt8: read act 1" (read_full 50)
    guard (get_or buf 0 0 == 0) (Error.text "bolt8: unsupported act 1 version")
    re ← parsed "bolt8: parse act 1 ephemeral" (slice buf 1 34)
    let h1 = mix_hash l h0 (slice buf 1 34)
    let (ck1, temp_k1) = hkdf_expand l ck0 (ecdh l local_static re)
    _ ← lift (wrapped "bolt8: decrypt act 1" (decrypt_with_ad l temp_k1 0 h1 (slice buf 34 50)))
    pure (re, mix_hash l h1 (slice buf 34 50), ck1)

  -- Act 2, written.
  unfoldable pub responder_act2 :
      Result PrivateKey
      → Option PrivateKey
      → PublicKey
      → Bytes
      → Bytes
      → Action Stream (PrivateKey × Bytes × Bytes × Bytes)
  unfolding choose_ephemeral
  responder_act2 gen ephemeral re h0 ck0 = do
    e ← lift (choose_ephemeral gen ephemeral)
    let e_pub = serialize_compressed (pub_key e)
    let h1 = mix_hash l h0 e_pub
    let (ck1, temp_k2) = hkdf_expand l ck0 (ecdh l e re)
    c ← lift (encrypt_with_ad l temp_k2 0 h1 [])
    wrapping "bolt8: write act 2" (write_all (0 ∷ (e_pub ++ c)))
    pure (e, mix_hash l h1 c, ck1, temp_k2)

  -- Act 3, read: the chaining key, the final hash and the initiator's static key.
  unfoldable pub responder_act3 :
      PrivateKey → Bytes → Bytes → Bytes → Action Stream (Bytes × Bytes × PublicKey)
  unfolding parsed
  responder_act3 e h0 ck0 temp_k2 = do
    buf3 ← wrapping "bolt8: read act 3" (read_full 66)
    guard (get_or buf3 0 0 == 0) (Error.text "bolt8: unsupported act 3 version")
    rs_bytes ←
        lift
          (wrapped "bolt8: decrypt act 3 static" (decrypt_with_ad l temp_k2 1 h0 (slice buf3 1 50)))
    guard (length rs_bytes == 33) (Error.text "bolt8: act 3 static key wrong length")
    rs ← parsed "bolt8: parse act 3 static" rs_bytes
    let h1 = mix_hash l h0 (slice buf3 1 50)
    let (ck1, temp_k3) = hkdf_expand l ck0 (ecdh l e rs)
    _ ←
        lift
          (wrapped "bolt8: decrypt act 3 tag" (decrypt_with_ad l temp_k3 0 h1 (slice buf3 50 66)))
    pure (ck1, h1, rs)

  unfoldable pub run_responder :
      Result PrivateKey → PrivateKey → Option PrivateKey → Action Stream (Bytes × Bytes × PublicKey)
  run_responder gen local_static ephemeral = do
    (re, h1, ck1) ← responder_act1 local_static
    (e, h2, ck2, temp_k2) ← responder_act2 gen ephemeral re h1 ck1
    responder_act3 e h2 ck2 temp_k2
