-- ===== src/Noisecat/Noise.antt =====
-- pkg/noisecat/noise.go and ParseConfig of conf.go: the noise.Config of a configuration.
pub mod Material
pub mod Provisioned
use noisecat.Base.{
  ℕ, Bool, true, false, not, ◌||◌, Option, none, some, List, [], ◌∷◌, Bytes, bytes_of, says,
  is_blank, length, ◌==◌, if◌then◌else◌, text, wrapped, Error, Result, ok, err,
}
use noisecat.Results.{◌>>=◌, ◌>>◌, require}
use noisecat.Noisecat.Names.{Protocol, dh_secp256k1, parse_protocol_name}
use noisecat.Noisecat.Config.{Config}
use noisecat.Noisecat.Keys.{DhKey, no_key, Env, check_local_keypair, load_secp256k1_keypair}

-- noise.Config. The suite is none where it is not set; a pattern is its name, "" where not set.
pub record NoiseConfig : Type 0 where
  pub cipher_suite : Option (ℕ × (ℕ × ℕ))
  pub pattern_name : Bytes
  pub initiator : Bool
  pub preshared_key : Bytes
  pub preshared_key_placement : ℕ
  pub static_keypair : DhKey
  pub peer_static : Bytes

-- The names of PatternByteObj's patterns.
abbrev pub pattern_byte_obj : List (ℕ × Bytes)
pattern_byte_obj =
    (4, bytes_of "NN")
    ∷ (5, bytes_of "NK")
    ∷ (6, bytes_of "NX")
    ∷ (7, bytes_of "XN")
    ∷ (8, bytes_of "XK")
    ∷ (9, bytes_of "XX")
    ∷ (10, bytes_of "KN")
    ∷ (11, bytes_of "KK")
    ∷ (12, bytes_of "KX")
    ∷ (13, bytes_of "IN")
    ∷ (14, bytes_of "IK")
    ∷ (15, bytes_of "IX")
    ∷ []

unfoldable pub pattern_at : ℕ → List (ℕ × Bytes) → Bytes
pattern_at n [] = []
pattern_at n ((m, name) ∷ t) = let rest = pattern_at n t in if n == m then name else rest

-- `case 'X', 'I', 'K'` for the initiator, `case 'X', 'K'` for the responder
abbrev pub sends_static : Bool → ℕ → Bool
sends_static true c = c == b'X' || c == b'I' || c == b'K'
sends_static false c = c == b'X' || c == b'K'

abbrev pub set_protocol : Protocol → Config → Config
set_protocol p c = record c {
  pattern_ = p.pattern_;
  dh_func = p.dh_func;
  cipher_func = p.cipher_func;
  hash_func = p.hash_func;
  psk_placement = p.psk_placement;
}

abbrev pub is_raw_name : Bytes → Bool
is_raw_name s = is_blank s || says s "raw"

abbrev pub select_bolt8 : Config → Config
select_bolt8 c = record c {
  transport = if is_raw_name c.transport then bytes_of "bolt8" else c.transport;
}

module _ (env : Env) where
  open env use {decode_string, split_host_port}

  abbrev pub unwrapped {ℓ} : {A : Type ℓ} → Error → Result A → Result A
  unwrapped e (ok a) = ok a
  unwrapped e (err why) = err e

  unfoldable pub decode_psk : Bytes → Result Bytes
  decode_psk key = do
    psk ← unwrapped (text "invalid PSK: must be base64-encoded") (decode_string key)
    require (length psk == 32) (text "PSK must decode to 32 bytes")
    ok psk

  -- The key and the placement, "" and 0 where there is none.
  unfoldable pub load_psk : Bytes → Option ℕ → Result (Bytes × ℕ)
  load_psk [] none = ok ([], 0)
  load_psk [] (some n) = err (text "protocol has a psk modifier but -psk was not provided")
  load_psk (b ∷ key) none = err (text "-psk set but protocol has no psk modifier")
  load_psk (b ∷ key) (some n) = do psk ← decode_psk (b ∷ key); ok (psk, n)

  -- checkRemoteStatic: what it sets.
  unfoldable pub check_remote_static : Bytes → Result Bytes
  check_remote_static r_static = do
    require (not (is_blank r_static)) (text "remote peer static key required (-rstatic)")
    decoded ← wrapped "invalid remote static key" (decode_string r_static)
    require (length decoded == 32) (text "remote static key must be 32 bytes")
    ok decoded

  unfoldable pub local_static : Bool → Config → Protocol → Result DhKey
  local_static needed c p =
      if needed
      then check_local_keypair env c.l_static p.dh_func p.cipher_func p.hash_func
      else ok no_key

  unfoldable pub remote_static : Bool → Config → Result Bytes
  remote_static needed c = if needed then check_remote_static c.r_static else ok []

  -- The keys the pattern asks of each role, in the order in which they are loaded.
  unfoldable pub load_statics : Bytes → Bool → Config → Protocol → Result (DhKey × Bytes)
  load_statics (a ∷ b ∷ name) true c p = do
    keypair ← local_static (sends_static true a) c p
    remote ← remote_static (b == b'K') c
    ok (keypair, remote)
  load_statics (a ∷ b ∷ name) false c p = do
    remote ← remote_static (a == b'K') c
    keypair ← local_static (sends_static false b) c p
    ok (keypair, remote)
  load_statics name initiator c p = err (text "unsupported pattern")

  unfoldable pub build_noise25519_config : Config → Bytes → Bool → Result NoiseConfig
  build_noise25519_config c name initiator = do
    p ← parse_protocol_name name
    require (not (p.dh_func == dh_secp256k1))
        (text "protocol uses secp256k1, which the noisesocket/raw transports cannot speak")
    (psk, placement) ← load_psk c.psk p.psk_placement
    let pattern_name = pattern_at p.pattern_ pattern_byte_obj
    (keypair, remote) ← load_statics pattern_name initiator c p
    ok (record {
      cipher_suite = some (p.dh_func, (p.cipher_func, p.hash_func));
      pattern_name = pattern_name;
      initiator = initiator;
      preshared_key = psk;
      preshared_key_placement = placement;
      static_keypair = keypair;
      peer_static = remote;
    })

  -- buildNoiseConfigForProtocol
  unfoldable pub build_noise_config_for_protocol : Config → Bytes → Bool → Result NoiseConfig
  build_noise_config_for_protocol c name initiator = build_noise25519_config c name initiator

  -- -rstatic of a BOLT-8 initiator.
  unfoldable pub bolt8_remote : Config → Result Bytes
  bolt8_remote c = if c.listen then ok [] else do
    require (not (is_blank c.r_static))
        (text "BOLT-8 initiator requires -rstatic (33-byte compressed secp256k1 pubkey)")
    rs ← wrapped "invalid -rstatic" (decode_string c.r_static)
    require (length rs == 33) (text "-rstatic for secp256k1 must decode to 33 bytes (compressed)")
    ok rs

  unfoldable pub parse_noise : Config → Result (NoiseConfig × Config)
  parse_noise c0 = do
    p ← parse_protocol_name c0.protocol
    let c = set_protocol p c0
    if p.dh_func == dh_secp256k1
        then (do
          kp ← load_secp256k1_keypair env c.l_static
          rs ← bolt8_remote c
          ok (
            record {
              cipher_suite = none;
              pattern_name = [];
              initiator = not c.listen;
              preshared_key = [];
              preshared_key_placement = 0;
              static_keypair = kp;
              peer_static = rs;
            },
            select_bolt8 c,
          ))
        else (do nc ← build_noise25519_config c c.protocol (not c.listen); ok (nc, c))
