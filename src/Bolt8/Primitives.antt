-- ===== src/Bolt8/Primitives.antt =====
-- pkg/transport/bolt8/primitives.go: the protocol's constants, mixHash, HKDF, ECDH and AEAD calls.
use noisecat.Base.{
  ℕ, zero, suc, ◌+◌, ◌/◌, ◌%◌, ◌≡◌, refl, Bool, Option, none, some, [], ◌∷◌, ◌++◌, Bytes, length,
  take, drop, replicate, if◌then◌else◌, Result, ok, err, Error,
}

-- What the package takes from its libraries: secp256k1, SHA-256, HKDF and ChaCha20-Poly1305.
-- `scalar_mult` is ScalarMultNonConst, brought to affine coordinates.
pub record Library : Type 1 where
  pub PrivateKey : Type 0
  pub PublicKey : Type 0
  pub FieldVal : Type 0
  pub pub_key : PrivateKey → PublicKey
  pub serialize_compressed : PublicKey → Bytes
  pub parse_pub_key : Bytes → Option PublicKey
  pub scalar_mult : PrivateKey → PublicKey → FieldVal × FieldVal
  pub is_odd : FieldVal → Bool
  pub field_bytes : FieldVal → Bytes
  pub sha256 : Bytes → Bytes
  -- The first `n` bytes of hkdf.New(sha256.New, secret, salt, info).
  pub hkdf : Bytes → Bytes → Bytes → ℕ → Bytes
  -- Seal and Open: key, nonce, plaintext or ciphertext, additional data.
  pub seal : Bytes → Bytes → Bytes → Bytes → Bytes
  pub unseal : Bytes → Bytes → Bytes → Bytes → Option Bytes

-- The documented behaviour that the protocol relies on.
pub record IsSound (l : Library) : Type 0 where
  pub unseal-seal : (k n p a : Bytes) → l.unseal k n (l.seal k n p a) a ≡ some p
  pub length-seal : (k n p a : Bytes) → length (l.seal k n p a) ≡ length p + 16
  pub parse-serialize : (q : l.PublicKey) → l.parse_pub_key (l.serialize_compressed q) ≡ some q
  pub length-serialize : (q : l.PublicKey) → length (l.serialize_compressed q) ≡ 33
  -- Diffie-Hellman: both sides arrive at one point.
  pub scalar_mult_comm :
      (a b : l.PrivateKey) → l.scalar_mult a (l.pub_key b) ≡ l.scalar_mult b (l.pub_key a)

abbrev pub mac_size : ℕ
mac_size = 16

abbrev pub rekey_interval : ℕ
rekey_interval = 1000

abbrev pub max_message_len : ℕ
max_message_len = 65535

-- "Noise_XK_secp256k1_ChaChaPoly_SHA256" and "lightning", as bytes.
abbrev pub protocol_name : Bytes
protocol_name =
    b'N' ∷ b'o' ∷ b'i' ∷ b's' ∷ b'e' ∷ b'_' ∷ b'X' ∷ b'K' ∷ b'_' ∷ b's' ∷ b'e' ∷ b'c' ∷ b'p' ∷ b'2'
    ∷ b'5' ∷ b'6' ∷ b'k' ∷ b'1' ∷ b'_' ∷ b'C' ∷ b'h' ∷ b'a' ∷ b'C' ∷ b'h' ∷ b'a' ∷ b'P' ∷ b'o'
    ∷ b'l' ∷ b'y' ∷ b'_' ∷ b'S' ∷ b'H' ∷ b'A' ∷ b'2' ∷ b'5' ∷ b'6' ∷ []

abbrev pub prologue : Bytes
prologue = b'l' ∷ b'i' ∷ b'g' ∷ b'h' ∷ b't' ∷ b'n' ∷ b'i' ∷ b'n' ∷ b'g' ∷ []

-- binary.LittleEndian.PutUint64: `n` bytes, the lowest first.
le_bytes : ℕ → ℕ → Bytes
le_bytes zero v = []
le_bytes (suc n) v = (v % 256) ∷ le_bytes n (v / 256)

unfoldable pub nonce_le : ℕ → Bytes
unfolding le_bytes
nonce_le n = replicate 4 0 ++ le_bytes 8 n

module _ (l : Library) where
  open l use {PrivateKey, PublicKey, FieldVal, scalar_mult, is_odd, field_bytes}
  open l use {sha256, hkdf, seal, unseal}

  unfoldable pub mix_hash : Bytes → Bytes → Bytes
  mix_hash h d = sha256 (h ++ d)

  -- The new chaining key and the derived key, 32 bytes each.
  unfoldable pub hkdf_expand : Bytes → Bytes → Bytes × Bytes
  hkdf_expand ck ikm = let buf = hkdf ikm ck [] 64 in (take 32 buf, drop 32 buf)

  unfoldable pub compress_point : FieldVal → FieldVal → Bytes
  compress_point x y = (if is_odd y then 3 else 2) ∷ field_bytes x

  unfoldable pub ecdh : PrivateKey → PublicKey → Bytes
  ecdh priv q = let (x, y) = scalar_mult priv q in sha256 (compress_point x y)

  -- chacha20poly1305.New refuses only a key that is not 32 bytes, which [32]byte rules out.
  unfoldable pub encrypt_with_ad : Bytes → ℕ → Bytes → Bytes → Result Bytes
  encrypt_with_ad key n ad plaintext = ok (seal key (nonce_le n) plaintext ad)

  opened : Option Bytes → Result Bytes
  opened none = err (Error.text "chacha20poly1305: message authentication failed")
  opened (some p) = ok p

  unfoldable pub decrypt_with_ad : Bytes → ℕ → Bytes → Bytes → Result Bytes
  unfolding opened
  decrypt_with_ad key n ad ciphertext = opened (unseal key (nonce_le n) ciphertext ad)

  -- The initial (h, ck). A side passes its own or the remote static key, and `[]` for the other.
  unfoldable pub initial_state : Bytes → Bytes → Bool → Bytes × Bytes
  initial_state local_static_pub remote_static_pub is_initiator =
      let ck = sha256 protocol_name in
      let h = mix_hash ck prologue in
      (mix_hash h (if is_initiator then remote_static_pub else local_static_pub), ck)

  module _ (sound : IsSound l) where
    open sound use {unseal-seal, scalar_mult_comm}

    -- Under one key, nonce and additional data, what was encrypted decrypts.
    pub decrypt-seal :
        (k : Bytes) (n : ℕ) (ad p : Bytes)
        → decrypt_with_ad k n ad (seal k (nonce_le n) p ad) ≡ ok p
    unfolding decrypt_with_ad
    decrypt-seal k n ad p = rw (unseal-seal k (nonce_le n) p ad) refl

    pub ecdh_comm : (a b : PrivateKey) → ecdh a (l.pub_key b) ≡ ecdh b (l.pub_key a)
    unfolding ecdh
    ecdh_comm a b = rw (scalar_mult_comm a b, ecdh) refl
