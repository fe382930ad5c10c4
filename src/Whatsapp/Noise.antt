-- ===== src/Whatsapp/Noise.antt =====
-- pkg/transport/whatsapp/handshake.go: the noiseHandshake state and its operations. The counters are
-- uint32.
pub mod Steps
use noisecat.Base.{
  ℕ, ◌+◌, ◌/◌, ◌%◌, ◌^◌, ◌++◌, ◌≡◌, [], ◌∷◌, Bytes, length, take, drop, replicate, ◌==◌,
  if◌then◌else◌, Result, ok, wrapped,
}
use noisecat.Results.{◌>>=◌}

-- What the package takes from its libraries: X25519, SHA-256, HKDF and AES-GCM. HKDF fails only
-- beyond 255 blocks of output, so that 64 bytes of it are a value.
pub record Library : Type 1 where
  pub Aead : Type 0
  pub x25519 : Bytes → Bytes → Result Bytes
  pub basepoint : Bytes
  pub sha256 : Bytes → Bytes
  -- The first `n` bytes of hkdf.New(sha256.New, secret, salt, info).
  pub hkdf : Bytes → Bytes → Bytes → ℕ → Bytes
  pub new_cipher : Bytes → Result Aead
  -- Seal and Open: cipher, nonce, plaintext or ciphertext, additional data.
  pub seal : Aead → Bytes → Bytes → Bytes → Bytes
  pub unseal : Aead → Bytes → Bytes → Bytes → Result Bytes

-- dhKeypair
pub record DhKeypair : Type 0 where
  pub priv : Bytes
  pub public : Bytes

abbrev pub IsPair : Library → DhKeypair → Type 0
IsPair l kp = (l.x25519 kp.priv l.basepoint ≡ ok kp.public) × (length kp.public ≡ 32)

-- The documented behaviour that the protocol relies on.
pub record IsSound (l : Library) : Type 0 where
  pub unseal-seal : (k : l.Aead) (n p a : Bytes) → l.unseal k n (l.seal k n p a) a ≡ ok p
  pub length-seal : (k : l.Aead) (n p a : Bytes) → length (l.seal k n p a) ≡ length p + 16
  pub length-hkdf : (s t i : Bytes) (n : ℕ) → length (l.hkdf s t i n) ≡ n
  pub new_cipher_ok : (k : Bytes) → length k ≡ 32 → (c : l.Aead) × (l.new_cipher k ≡ ok c)
  -- Diffie-Hellman between the pairs of two parties.
  pub x25519_comm :
      (a b : DhKeypair)
      → IsPair l a
      → IsPair l b
      → (s : Bytes) × (l.x25519 a.priv b.public ≡ ok s) × (l.x25519 b.priv a.public ≡ ok s)

-- "Noise_XX_25519_AESGCM_SHA256" and four zero bytes.
abbrev pub noise_start_pattern : Bytes
noise_start_pattern =
    b'N' ∷ b'o' ∷ b'i' ∷ b's' ∷ b'e' ∷ b'_' ∷ b'X' ∷ b'X' ∷ b'_' ∷ b'2' ∷ b'5' ∷ b'5' ∷ b'1' ∷ b'9'
    ∷ b'_' ∷ b'A' ∷ b'E' ∷ b'S' ∷ b'G' ∷ b'C' ∷ b'M' ∷ b'_' ∷ b'S' ∷ b'H' ∷ b'A' ∷ b'2' ∷ b'5'
    ∷ b'6' ∷ 0 ∷ 0 ∷ 0 ∷ 0 ∷ []

-- Eight zero bytes and the counter, big-endian.
unfoldable pub generate_iv : ℕ → Bytes
generate_iv count =
    replicate 8 0
    ++ (count / 2 ^ 24 % 256) ∷ (count / 2 ^ 16 % 256) ∷ (count / 2 ^ 8 % 256) ∷ (count % 256) ∷ []

module _ (l : Library) where
  open l use {Aead, x25519, basepoint, sha256, hkdf, new_cipher, seal, unseal}

  -- `rand` is what crypto/rand gives for 32 bytes.
  unfoldable pub generate_keypair : Result Bytes → Result DhKeypair
  generate_keypair rand = do
    priv ← wrapped "whatsapp: read random" rand
    public ← wrapped "whatsapp: derive public key" (x25519 priv basepoint)
    ok (record { priv = priv; public = public })

  unfoldable pub gcm_prepare : Bytes → Result Aead
  gcm_prepare key = wrapped "whatsapp: init AES" (new_cipher key)

  pub record NoiseHandshake : Type 0 where
    pub hash : Bytes
    pub salt : Bytes
    pub key : Aead
    pub counter : ℕ

  unfoldable pub authenticate : Bytes → NoiseHandshake → NoiseHandshake
  authenticate data_ nh = record nh { hash = sha256 (nh.hash ++ data_) }

  -- On the zero state, which newNoiseHandshake makes.
  unfoldable pub start : Bytes → Bytes → Result NoiseHandshake
  start pattern_ header = do
    let h = if length pattern_ == 32 then pattern_ else sha256 pattern_
    key ← gcm_prepare h
    ok (authenticate header (record { hash = h; salt = h; key = key; counter = 0 }))

  unfoldable pub post_increment_counter : NoiseHandshake → ℕ × NoiseHandshake
  post_increment_counter nh = (nh.counter, record nh { counter = (nh.counter + 1) % 2 ^ 32 })

  unfoldable pub encrypt : Bytes → NoiseHandshake → Bytes × NoiseHandshake
  encrypt plaintext nh =
      let c = (post_increment_counter nh).0 in
      let ciphertext = seal nh.key (generate_iv c) plaintext nh.hash in
      (ciphertext, authenticate ciphertext (post_increment_counter nh).1)

  -- Where it fails the callers give up the state.
  unfoldable pub decrypt : Bytes → NoiseHandshake → Result (Bytes × NoiseHandshake)
  decrypt ciphertext nh = do
    let c = (post_increment_counter nh).0
    plaintext ← unseal nh.key (generate_iv c) ciphertext nh.hash
    ok (plaintext, authenticate ciphertext (post_increment_counter nh).1)

  unfoldable pub extract_and_expand : Bytes → Bytes → Bytes × Bytes
  extract_and_expand salt data_ = let out = hkdf data_ salt [] 64 in (take 32 out, drop 32 out)

  unfoldable pub mix_into_key : Bytes → NoiseHandshake → Result NoiseHandshake
  mix_into_key data_ nh = do
    let (write, read) = extract_and_expand nh.salt data_
    key ← gcm_prepare read
    ok (record nh { counter = 0; salt = write; key = key })

  unfoldable pub mix_shared_secret_into_key : Bytes → Bytes → NoiseHandshake → Result NoiseHandshake
  mix_shared_secret_into_key priv public nh = do
    secret ← wrapped "whatsapp: x25519" (x25519 priv public)
    mix_into_key secret nh

  unfoldable pub finish : NoiseHandshake → Bytes × Bytes
  finish nh = extract_and_expand nh.salt []

  pub record HandshakeResult : Type 0 where
    pub write_key : l.Aead
    pub read_key : l.Aead
    pub peer_static : Bytes

  unfoldable pub client_keys : Bytes → NoiseHandshake → Result HandshakeResult
  client_keys peer nh = do
    let (write, read) = finish nh
    write_key ← gcm_prepare write
    read_key ← gcm_prepare read
    ok (record { write_key = write_key; read_key = read_key; peer_static = peer })

  -- The responder mirrors the directions of the keys.
  unfoldable pub server_keys : Bytes → NoiseHandshake → Result HandshakeResult
  server_keys peer nh = do
    let (write, read) = finish nh
    send_key ← gcm_prepare read
    recv_key ← gcm_prepare write
    ok (record { write_key = send_key; read_key = recv_key; peer_static = peer })
