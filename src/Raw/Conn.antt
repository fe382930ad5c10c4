-- ===== src/Raw/Conn.antt =====
-- pkg/transport/raw/conn.go: the connection. The locks and deadlines are left out, a call runs as a
-- whole; the count that goes with an error of Write is left out. `cs_in` and `cs_out` are in and out.
pub mod Established
pub mod Session
pub mod Channel
pub mod Faults
pub mod Handshake
use noisecat.Base.{
  ℕ, zero, suc, ◌+◌, ◌-◌, ◌++◌, Bool, true, false, not, ◌&&◌, Option, none, some, [], ◌∷◌, Bytes,
  length, take, drop, min, replicate, be16, of_be16, ◌==◌, ltb, leb, if◌then◌else◌, Error, text,
  eof, unexpected_eof, panics, ok, err, ret, raise, Action, ◌>>=◌, ◌>>◌, pure, guard, gets, modify,
  Stream, read_full, write_all, close,
}
use noisecat.Flynn.{NoiseLibrary, max_msg_len}

-- readBytes: the error is the connection's own, io.EOF also behind some bytes.
unfoldable pub read_bytes : ℕ → Action Stream Bytes
read_bytes n s = elim (read_full n s) [
  | ret b s' ↦ ret b s'
  | raise unexpected_eof s' ↦ raise eof s'
  | raise e s' ↦ raise e s'
]

-- A message behind its length.
unfoldable pub read_message16 : Error → Action Stream Bytes
read_message16 too_long = do
  header ← read_bytes 2
  guard (not (ltb max_msg_len (of_be16 header))) too_long
  read_bytes (of_be16 header)

unfoldable pub write_message16 : Bytes → Action Stream (Unit {0})
write_message16 msg = write_all (be16 (length msg) ++ msg)

module _ (l : NoiseLibrary) where
  open l use {
    Config, HandshakeState, CipherState, messages, peer_static, new_handshake_state, write_message,
    read_message, channel_binding, encrypt, decrypt, is_max_nonce,
  }

  pub record Conn : Type 0 where
    pub conn : Stream
    pub is_client : Bool
    pub config : Config
    pub hs : Option HandshakeState
    pub handshake_complete : Bool
    pub cs_in : Option CipherState
    pub cs_out : Option CipherState
    pub input_buffer : Bytes

  unfoldable pub client : Stream → Config → Conn
  client s cfg = record {
    conn = s;
    is_client = true;
    config = cfg;
    hs = none;
    handshake_complete = false;
    cs_in = none;
    cs_out = none;
    input_buffer = [];
  }

  unfoldable pub server : Stream → Config → Conn
  server s cfg = record {
    conn = s;
    is_client = false;
    config = cfg;
    hs = none;
    handshake_complete = false;
    cs_in = none;
    cs_out = none;
    input_buffer = [];
  }

  abbrev pub on_conn : {A : Type 0} → Action Stream A → Action Conn A
  on_conn m c = elim (m c.conn) [
    | ret a s ↦ ret a (record c { conn = s })
    | raise e s ↦ raise e (record c { conn = s })
  ]

  abbrev pub on_hs : {A : Type 0} → Action HandshakeState A → Action Conn A
  on_hs m c = elim c.hs [
    | none ↦ raise (panics "nil handshake state") c
    | some h ↦ elim (m h) [
      | ret a h' ↦ ret a (record c { hs = some h' })
      | raise e h' ↦ raise e (record c { hs = some h' })
    ]
  ]

  -- One round of the loop over the pattern's messages.
  unfoldable pub handshake_write : Action Conn (Option (CipherState × CipherState))
  handshake_write = do
    (msg, cs) ← on_hs write_message
    guard (not (ltb 0xFFFF (length msg)))
        (text "noise: handshake message exceeds 16-bit length frame")
    on_conn (write_message16 msg)
    pure cs

  unfoldable pub handshake_read : Action Conn (Option (CipherState × CipherState))
  handshake_read = do
    msg ← on_conn (read_message16 (text "noise: handshake message exceeds MaxMsgLen"))
    on_hs (read_message msg)

  unfoldable pub handshake_loop :
      ℕ
      → Bool
      → Option (CipherState × CipherState)
      → Action Conn (Option (CipherState × CipherState))
  handshake_loop zero state cs = pure cs
  handshake_loop (suc k) true cs = do cs' ← handshake_write; handshake_loop k false cs'
  handshake_loop (suc k) false cs = do cs' ← handshake_read; handshake_loop k true cs'

  -- The two cipher states, by role; nil where the pattern left none.
  abbrev pub first : Option (CipherState × CipherState) → Option CipherState
  first none = none
  first (some p) = some p.0

  abbrev pub second : Option (CipherState × CipherState) → Option CipherState
  second none = none
  second (some p) = some p.1

  unfoldable pub assign : Option (CipherState × CipherState) → Conn → Conn
  assign cs c =
      if c.is_client
      then record c { cs_out = first cs; cs_in = second cs; handshake_complete = true }
      else record c { cs_out = second cs; cs_in = first cs; handshake_complete = true }

  abbrev pub has_key_size : Option Bytes → Bool
  has_key_size none = true
  has_key_size (some k) = length k == 32

  -- `c.hs, err = noise.NewHandshakeState(*c.config)`
  unfoldable pub begin : Action Conn (Unit {0})
  begin c = elim (new_handshake_state c.config) [
    | ok h ↦ ret tt (record c { hs = some h })
    | err e ↦ raise e (record c { hs = none })
  ]

  unfoldable pub run_handshake : Action Conn (Unit {0})
  run_handshake = do
    cfg ← gets (λ c. c.config)
    guard (has_key_size (peer_static cfg)) (text "noise: the provided remote key is not 32 bytes")
    begin
    state ← gets (λ c. c.is_client)
    cs ← handshake_loop (messages cfg) state none
    modify (assign cs)

  unfoldable pub handshake : Action Conn (Unit {0})
  handshake c = if c.handshake_complete then ret tt c else run_handshake c

  unfoldable pub fingerprint : Conn → Bytes
  fingerprint c = elim c.hs [
    | none ↦ replicate 32 0
    | some h ↦
        if c.handshake_complete
        then take 32 (channel_binding h ++ replicate 32 0)
        else replicate 32 0
  ]

  -- On nonce exhaustion the connection is closed.
  abbrev pub on_nonce : Error → Conn → Conn
  on_nonce e c = if is_max_nonce e then record c { conn = close c.conn } else c

  unfoldable pub encrypt_out : Bytes → Action Conn Bytes
  encrypt_out p c = elim c.cs_out [
    | none ↦ raise (panics "nil cipher state") c
    | some s ↦ elim (encrypt p s) [
      | ret b s' ↦ ret b (record c { cs_out = some s' })
      | raise e s' ↦ raise e (on_nonce e (record c { cs_out = some s' }))
    ]
  ]

  unfoldable pub decrypt_in : Bytes → Action Conn Bytes
  decrypt_in b c = elim c.cs_in [
    | none ↦ raise (panics "nil cipher state") c
    | some s ↦ elim (decrypt b s) [
      | ret p s' ↦ ret p (record c { cs_in = some s' })
      | raise e s' ↦ raise e (on_nonce e (record c { cs_in = some s' }))
    ]
  ]

  abbrev pub max_fragment : ℕ
  max_fragment = max_msg_len - 16

  -- The server's side of a one-way pattern.
  abbrev pub is_one_way_server : Conn → Bool
  is_one_way_server c = not c.is_client && ltb (messages c.config) 2

  unfoldable pub write_fragment : Bytes → Action Conn (Unit {0})
  write_fragment part = do
    ciphertext ← encrypt_out part
    guard (not (ltb 0xFFFF (length ciphertext)))
        (text "noise: ciphertext exceeds 16-bit length frame")
    on_conn (write_message16 ciphertext)

  -- The loop, `for len(data) > 0`; each round takes a byte at least.
  unfoldable pub write_loop : ℕ → ℕ → Bytes → Action Conn ℕ
  write_loop fuel n [] = pure n
  write_loop zero n (b ∷ data_) = λ c. raise (panics "out of fuel") c
  write_loop (suc fuel) n (b ∷ data_) = do
    let m = min (length (b ∷ data_)) max_fragment
    write_fragment (take m (b ∷ data_))
    write_loop fuel (n + m) (drop m (b ∷ data_))

  unfoldable pub write : Bytes → Action Conn ℕ
  write b = do
    one_way ← gets is_one_way_server
    guard (not one_way) (text "noise: server cannot write on a one-way pattern")
    handshake
    write_loop (length b) 0 b

  -- The next message, behind `so_far` from the buffer, which is empty now.
  unfoldable pub read_next : Bytes → ℕ → Action Conn Bytes
  read_next so_far size = do
    modify (λ c. record c { input_buffer = [] })
    msg ← on_conn (read_message16 (text "noise: received message exceeds MaxMsgLen"))
    plaintext ← decrypt_in msg
    let rest = size - length so_far
    modify (λ c. record c { input_buffer = drop rest plaintext })
    pure (so_far ++ take rest plaintext)

  unfoldable pub read_buffered : ℕ → Action Conn Bytes
  read_buffered size c =
      ret (take size c.input_buffer) (record c { input_buffer = drop size c.input_buffer })

  -- conn.Read into a buffer of `size` bytes: what it copies.
  unfoldable pub read : ℕ → Action Conn Bytes
  read size = do
    handshake
    if size == 0 then pure [] else do
      one_way ← gets is_one_way_server
      guard (not one_way) (text "noise: client cannot read on a one-way pattern")
      buf ← gets (λ c. c.input_buffer)
      if leb size (length buf) then read_buffered size else read_next buf size
