-- ===== src/Noisecat/Net/Dial.antt =====
-- The keys that pkg/transport/bolt8/bolt8.go and pkg/transport/whatsapp/whatsapp.go take from a
-- noise.Config. A private key is its bytes; a key that is nil is empty.
use noisecat.Base.{
  ◌≡◌, ◌∙◌, ap, sym, refl, arith, true, false, not, ◌&&◌, [], ◌∷◌, Bytes, is_blank, length, ◌==◌,
  ==_iff, if◌then◌else◌, text, wrapped, Result, ok, inl, inr,
}
use noisecat.Results.{
  ◌>>=◌, ◌>>◌, require, >>=-eq-ok, require-eq-ok, if-eq-ok, ok-pair, wrapped-eq-ok,
}
use noisecat.Noisecat.Names.{dh_secp256k1, parse_protocol_name}
use noisecat.Noisecat.Config.{Config}
use noisecat.Noisecat.Keys.{DhKey, Env, read_keypair, new_secp256k1_keypair, load_secp256k1_keypair}
use noisecat.Noisecat.Noise.{
  NoiseConfig, unwrapped, set_protocol, bolt8_remote, build_noise25519_config, parse_noise,
}

-- localPrivFromCfg
unfoldable pub local_priv_from_cfg : NoiseConfig → Result Bytes
local_priv_from_cfg nc = do
  require (length nc.static_keypair.private == 32)
      (text "bolt8: missing 32-byte local static key (use -lstatic)")
  ok nc.static_keypair.private

-- keypairFromConfig; `generated` is what generateKeypair returns.
unfoldable pub keypair_from_config : Result DhKey → NoiseConfig → Result DhKey
keypair_from_config generated nc =
    if length nc.static_keypair.private == 32 && length nc.static_keypair.public == 32
    then ok nc.static_keypair
    else generated

module _ (env : Env) where
  open env use {parse_pub_key, generate_private_key}

  -- bolt8's Dial, up to the dialer: the two keys of bolt8.Client.
  unfoldable pub dial_keys : NoiseConfig → Result (Bytes × Bytes)
  dial_keys nc = do
    priv ← local_priv_from_cfg nc
    require (not (is_blank nc.peer_static))
        (text "bolt8: initiator requires -rstatic (33-byte compressed secp256k1 pubkey)")
    unwrapped env (text "bolt8: invalid -rstatic; want 33-byte compressed secp256k1")
        (parse_pub_key nc.peer_static)
    ok (priv, nc.peer_static)

  load_secp256k1_keypair-length :
      (path : Bytes) (k : DhKey)
      → ((b : Bytes) → generate_private_key ≡ ok b → length b ≡ 32)
      → load_secp256k1_keypair env path ≡ ok k
      → length k.private ≡ 32
  unfolding load_secp256k1_keypair new_secp256k1_keypair
  load_secp256k1_keypair-length [] k generates h =
      let made = wrapped-eq-ok _ (new_secp256k1_keypair env) h in
      let (b, e, h1) = >>=-eq-ok generate_private_key _ made in
      let same : record { private = b; public = env.serialize_compressed b } ≡ k = cc h1 in
      ap (λ x. length x.private) (sym same) ∙ generates b e
  load_secp256k1_keypair-length (c ∷ path) k generates h =
      let (kf, is_read, h1) = >>=-eq-ok (read_keypair env (c ∷ path)) _ h in
      let (private, h2) = require-eq-ok (length kf.private == 32) _ _ h1 in
      let (public, h3) = require-eq-ok (length kf.public == 33) _ _ h2 in
      let same : kf ≡ k = cc h3 in
      ap (λ x. length x.private) (sym same) ∙ (==_iff (length kf.private) 32).0 private

  bolt8_remote-length :
      (c : Config) (rs : Bytes) → c.listen ≡ false → bolt8_remote env c ≡ ok rs → length rs ≡ 33
  unfolding bolt8_remote
  bolt8_remote-length c rs client h =
      let (given, h1) = require-eq-ok (not (is_blank c.r_static)) _ _ (simp client at h) in
      let (b, decoded, h2) =
        >>=-eq-ok (wrapped "invalid -rstatic" (env.decode_string c.r_static)) _ h1 in
      let (size, h3) = require-eq-ok (length b == 33) _ _ h2 in
      let same : b ≡ rs = cc h3 in ap length (sym same) ∙ (==_iff (length b) 33).0 size

  not_blank : (rs : Bytes) → length rs ≡ 33 → not (is_blank rs) ≡ true
  not_blank [] h = absurd (omega arith)
  not_blank (c ∷ rs) h = refl

  dial_keys_lem :
      (nc : NoiseConfig)
      → length nc.static_keypair.private ≡ 32
      → length nc.peer_static ≡ 33
      → parse_pub_key nc.peer_static ≡ ok tt
      → dial_keys nc ≡ ok (nc.static_keypair.private, nc.peer_static)
  unfolding dial_keys local_priv_from_cfg
  dial_keys_lem nc private remote point =
      let some_remote = not_blank nc.peer_static remote in
      let size : (length nc.static_keypair.private == 32) ≡ true =
        (==_iff (length nc.static_keypair.private) 32).1 private in
      simp (size, some_remote, point, unwrapped, require, ◌>>◌, ◌>>=◌) refl

  -- What parseNoise provides for a BOLT-8 initiator is what bolt8's Dial asks for: it takes both keys,
  -- where the remote one is a point of the curve. The condition: a generated private key has 32 bytes.
  pub parse_noise-dial_keys :
      (c c' : Config) (nc : NoiseConfig)
      → ((b : Bytes) → generate_private_key ≡ ok b → length b ≡ 32)
      → c.listen ≡ false
      → c'.dh_func ≡ dh_secp256k1
      → parse_noise env c ≡ ok (nc, c')
      → parse_pub_key nc.peer_static ≡ ok tt
      → dial_keys nc ≡ ok (nc.static_keypair.private, nc.peer_static)
  unfolding parse_noise
  parse_noise-dial_keys c c' nc generates client secp h point =
      let (p, parsed, h1) = >>=-eq-ok (parse_protocol_name c.protocol) _ h in
      elim (if-eq-ok (p.dh_func == dh_secp256k1) _ _ h1) [
        | inl (e, h2) ↦
            let (kp, loaded, h3) = >>=-eq-ok (load_secp256k1_keypair env c.l_static) _ h2 in
            let (rs, known, h4) = >>=-eq-ok (bolt8_remote env (set_protocol p c)) _ h3 in
            let (same, last) = ok-pair h4 in
            dial_keys_lem nc
              (ap (λ x. length x.static_keypair.private) (sym same)
                ∙ load_secp256k1_keypair-length c.l_static kp generates loaded)
              (ap (λ x. length x.peer_static) (sym same)
                ∙ bolt8_remote-length (set_protocol p c) rs client known)
              point
        | inr (e, h2) ↦
            let (built, made, h3) =
              >>=-eq-ok (build_noise25519_config env (set_protocol p c) c.protocol (not c.listen)) _
                h2 in
            let (same, last) = ok-pair h3 in
            let dh : p.dh_func ≡ dh_secp256k1 = ap (λ x. x.dh_func) last ∙ secp in
            absurd (cc (e, (==_iff p.dh_func dh_secp256k1).1 dh))
      ]
