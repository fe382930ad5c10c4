-- ===== src/Whatsapp/Noise/Steps.antt =====
-- The steps of the noiseHandshake state, as two parties take them on the same state.
use noisecat.Base.{
  ◌+◌, ◌-◌, min, ◌≡◌, refl, arith, [], Bytes, length, take, drop, length-take, length-drop, ok,
}
use noisecat.Whatsapp.Framing.{wa_conn_header}
use noisecat.Whatsapp.Noise.{
  Library, IsSound, IsPair, DhKeypair, NoiseHandshake, noise_start_pattern, start, generate_iv,
  post_increment_counter, authenticate, encrypt, decrypt, gcm_prepare, extract_and_expand,
  mix_into_key, mix_shared_secret_into_key, finish, client_keys, server_keys,
}

module _ (l : Library) (sound : IsSound l) where
  open sound use {unseal-seal, length-seal, length-hkdf, new_cipher_ok, x25519_comm}

  gcm_prepare_ok : (k : Bytes) → length k ≡ 32 → (c : l.Aead) × (gcm_prepare l k ≡ ok c)
  unfolding gcm_prepare
  gcm_prepare_ok k h = let (c, e) = new_cipher_ok k h in (c, rw e refl)

  pub start_ok : (nh : NoiseHandshake l) × (start l noise_start_pattern wa_conn_header ≡ ok nh)
  unfolding start
  start_ok =
      let (c, e) = gcm_prepare_ok noise_start_pattern refl in
      (
        authenticate l wa_conn_header (record {
          hash = noise_start_pattern;
          salt = noise_start_pattern;
          key = c;
          counter = 0;
        }),
        simp e refl,
      )

  -- The two halves of the expanded key are 32 bytes each.
  halves :
      (s d : Bytes)
      → (length (extract_and_expand l s d).0 ≡ 32) × (length (extract_and_expand l s d).1 ≡ 32)
  unfolding extract_and_expand
  halves s d =
      let out = l.hkdf d s [] 64 in
      let all : length out ≡ 64 = length-hkdf d s [] 64 in
      let front : length (take 32 out) ≡ min 32 (length out) = length-take 32 out in
      let back : length (drop 32 out) ≡ length out - 32 = length-drop 32 out in
      (omega arith, omega arith)

  mix_into_key_ok :
      (d : Bytes) (nh : NoiseHandshake l)
      → (nh' : NoiseHandshake l) × (mix_into_key l d nh ≡ ok nh')
  unfolding mix_into_key
  mix_into_key_ok d nh =
      let (c, e) = gcm_prepare_ok _ (halves nh.salt d).1 in
      (record nh { counter = 0; salt = (extract_and_expand l nh.salt d).0; key = c }, simp e refl)

  -- Each side mixes in its own private key and the other's public one, with one result.
  pub mix_agree :
      (a b : DhKeypair) (nh : NoiseHandshake l)
      → IsPair l a
      → IsPair l b
      → (nh' : NoiseHandshake l) × (mix_shared_secret_into_key l a.priv b.public nh ≡ ok nh')
        × (mix_shared_secret_into_key l b.priv a.public nh ≡ ok nh')
  unfolding mix_shared_secret_into_key
  mix_agree a b nh pa pb =
      let (s, ea, eb) = x25519_comm a b pa pb in
      let (nh', e) = mix_into_key_ok s nh in (nh', simp (ea, e) refl, simp (eb, e) refl)

  pub decrypt-encrypt :
      (p : Bytes) (nh : NoiseHandshake l)
      → decrypt l (encrypt l p nh).0 nh ≡ ok (p, (encrypt l p nh).1)
  unfolding decrypt encrypt
  decrypt-encrypt p nh =
      rw (unseal-seal nh.key (generate_iv (post_increment_counter l nh).0) p nh.hash) refl

  pub length-encrypt :
      (p : Bytes) (nh : NoiseHandshake l) → length (encrypt l p nh).0 ≡ length p + 16
  unfolding encrypt
  length-encrypt p nh = length-seal nh.key _ p nh.hash

  -- Both sides end with keys, each the other's the other way round.
  pub keys_mirrored :
      (client server : Bytes) (nh : NoiseHandshake l)
      → (c s : l.Aead) × (client_keys l server nh
          ≡ ok (record { write_key = c; read_key = s; peer_static = server }))
        × (server_keys l client nh
            ≡ ok (record { write_key = s; read_key = c; peer_static = client }))
  unfolding client_keys server_keys finish
  keys_mirrored client server nh =
      let (c, ec) = gcm_prepare_ok _ (halves nh.salt []).0 in
      let (s, es) = gcm_prepare_ok _ (halves nh.salt []).1 in
      (c, s, simp (ec, es) refl, simp (ec, es) refl)
