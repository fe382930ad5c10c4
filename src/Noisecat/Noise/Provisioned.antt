-- ===== src/Noisecat/Noise/Provisioned.antt =====
-- The key material in the noise.Config of a protocol's name.
use noisecat.Base.{
  ℕ, ◌≡◌, ◌∙◌, sym, ap, refl, Bool, not, ◌||◌, some, [], ◌∷◌, ◌++◌, Bytes, ◌==◌, if◌then◌else◌, ok,
}
use noisecat.Results.{require-eq-ok, >>=-eq-ok}
use noisecat.Noisecat.Names.{
  Protocol, dh_curve25519, dh_secp256k1, parse_protocol_name, noise_prefix, pattern_str_byte,
  dh_str_byte,
}
use noisecat.Noisecat.Names.Parts.{entries-lookup, psk_text, functions_text}
use noisecat.Noisecat.Names.Grammar.{parse_protocol_name-Names}
use noisecat.Noisecat.Config.{Config}
use noisecat.Noisecat.Keys.{Env}
use noisecat.Noisecat.Noise.{
  NoiseConfig, pattern_at, pattern_byte_obj, load_psk, load_statics, build_noise25519_config,
}
use noisecat.Noisecat.Noise.Material.{
  Generates, Own, Peer, Psk, is_pattern_entry, pattern_entries, dh_entries, pattern_letters, curve,
  load_psk-Psk, load_statics_lem,
}

pub record Provisioned (s : Bytes) (nc : NoiseConfig) : Type 0 where
  pub protocol : Protocol
  pub is_parsed : parse_protocol_name s ≡ ok protocol
  pub suite : nc.cipher_suite ≡ some (dh_curve25519, (protocol.cipher_func, protocol.hash_func))
  pub first : ℕ
  pub second : ℕ
  pub rest : Bytes
  pub is_pattern : nc.pattern_name ≡ first ∷ second ∷ []
  pub is_named : s ≡ noise_prefix ++ (nc.pattern_name ++ rest)
  pub psk : Psk protocol.psk_placement nc.preshared_key nc.preshared_key_placement
  pub own : Own (if nc.initiator then first else second) nc.static_keypair
  pub peer : Peer (if nc.initiator then second else first) nc.peer_static

module _ (env : Env) where
  -- The noise.Config that buildNoise25519Config makes of a name: its functions are the named ones,
  -- with Curve25519; its pattern is the one that the name begins with; it has a 32-byte preshared key
  -- exactly where the name has a placement, and at that placement; it has a key pair of 32 bytes each
  -- exactly where the role's letter of the pattern is not 'N', and the peer's key of 32 bytes exactly
  -- where the peer's letter is 'K'. The condition: a generated Curve25519 key pair has 32 bytes each.
  pub build_noise25519_config-Provisioned :
      (c : Config) (s : Bytes) (initiator : Bool) (nc : NoiseConfig)
      → Generates env
      → build_noise25519_config env c s initiator ≡ ok nc
      → (nc.initiator ≡ initiator) × Provisioned s nc
  unfolding build_noise25519_config
  build_noise25519_config-Provisioned c s initiator nc generates h =
      let (p, parsed, h1) = >>=-eq-ok (parse_protocol_name s) _ h in
      let (not_secp, h2) = require-eq-ok (not (p.dh_func == dh_secp256k1)) _ _ h1 in
      let ((psk, n), keyed, h3) = >>=-eq-ok (load_psk env c.psk p.psk_placement) _ h2 in
      let ((k, rs), loaded, h4) =
        >>=-eq-ok (load_statics env (pattern_at p.pattern_ pattern_byte_obj) initiator c p) _ h3 in
      let (name, d, ci, ha, known, fits, is_named) = (parse_protocol_name-Names s p).0 parsed in
      let entry =
        entries-lookup is_pattern_entry pattern_str_byte name p.pattern_ pattern_entries
          known.known_pattern in
      let (a, b, is_name, is_pattern, is_a, is_b) = pattern_letters name p.pattern_ entry in
      let dh =
        curve p.dh_func
          (entries-lookup (λ k v. v == dh_curve25519 || v == dh_secp256k1) dh_str_byte d p.dh_func
            dh_entries known.known_dh)
          not_secp in
      let statics =
        load_statics_lem env a b initiator c p k rs generates dh is_a is_b
          (rw is_pattern at loaded) in
      let built : NoiseConfig = record {
        cipher_suite = some (p.dh_func, (p.cipher_func, p.hash_func));
        pattern_name = pattern_at p.pattern_ pattern_byte_obj;
        initiator = initiator;
        preshared_key = psk;
        preshared_key_placement = n;
        static_keypair = k;
        peer_static = rs;
      } in
      let same : built ≡ nc = cc h4 in
      let rest = psk_text p.psk_placement ++ functions_text d ci ha in
      let provisioned : Provisioned s built = record {
        protocol = p;
        is_parsed = parsed;
        suite = ap (λ x. some (x, (p.cipher_func, p.hash_func))) dh;
        first = a;
        second = b;
        rest = rest;
        is_pattern = is_pattern;
        is_named = is_named ∙ ap (λ x. noise_prefix ++ (x ++ rest)) (is_name ∙ sym is_pattern);
        psk = load_psk-Psk env c.psk p.psk_placement psk n fits keyed;
        own = statics.0;
        peer = statics.1;
      } in
      rw (sym same) (refl, provisioned)
