-- ===== src/Noisesocket/Conn.antt =====
-- pkg/transport/noisesocket/conn.go: the connection. The locks and deadlines are left out, a call runs
-- as a whole; the count that goes with an error of Write is left out. `cs_in` and `cs_out` are in and
-- out.
pub mod Negotiate
pub mod Session
pub mod Calls
pub mod Rounds
pub mod Handshake
use noisecat.Base.{
  ℕ, zero, suc, ◌+◌, ◌-◌, ◌++◌, Bool, true, false, not, ◌&&◌, ◌||◌, Option, none, some, [], ◌∷◌,
  Bytes, length, take, drop, min, replicate, of_be16, equal, ◌==◌, ltb, if◌then◌else◌, Error, text,
  wrap, panics, ret, raise, Action, ◌>>=◌, ◌>>◌, pure, lift, guard, gets, modify, wrapping, Stream,
  close, String,
}
use noisecat.Flynn.{NoiseLibrary}
use noisecat.Noisesocket.Framing.{
  max_message_len, put_uint16, build_prologue, write_handshake_frame, read_handshake_frame,
  write_length_prefixed, read_length_prefixed,
}

module _ (l : NoiseLibrary) where
  open l use {
    Config, HandshakeState, CipherState, messages, with_prologue, new_handshake_state,
    write_message, read_message, channel_binding, encrypt, decrypt, is_max_nonce,
  }

  pub record Conn : Type 0 where
    pub conn : Stream
    pub is_client : Bool
    pub cfg : Config
    pub initial_neg_data : Bytes
    pub app_prologue : Bytes
    pub hs : Option HandshakeState
    pub handshake_done : Bool
    pub cs_in : Option CipherState
    pub cs_out : Option CipherState
    pub input_buffer : Bytes

  new_conn : Bool → Stream → Config → Bytes → Bytes → Conn
  new_conn is_client s cfg neg app = record {
    conn = s;
    is_client = is_client;
    cfg = cfg;
    initial_neg_data = neg;
    app_prologue = app;
    hs = none;
    handshake_done = false;
    cs_in = none;
    cs_out = none;
    input_buffer = [];
  }

  unfoldable pub client : Stream → Config → Bytes → Bytes → Conn
  unfolding new_conn
  client s cfg neg app = new_conn true s cfg neg app

  unfoldable pub server : Stream → Config → Bytes → Bytes → Conn
  unfolding new_conn
  server s cfg neg app = new_conn false s cfg neg app

  abbrev pub on_conn : {A : Type 0} → Action Stream A → Action Conn A
  on_conn m c = elim (m c.conn) [
    | ret a s ↦ ret a (record c { conn = s })
    | raise e s ↦ raise e (record c { conn = s })
  ]

  abbrev pub on_hs : {A : Type 0} → String → Action HandshakeState A → Action Conn A
  on_hs msg m c = elim c.hs [
    | none ↦ raise (panics "nil handshake state") c
    | some h ↦ elim (m h) [
      | ret a h' ↦ ret a (record c { hs = some h' })
      | raise e h' ↦ raise (wrap msg e) (record c { hs = some h' })
    ]
  ]

  -- Called where `cs1 != nil`.
  unfoldable pub assign_cipher_states : Option (CipherState × CipherState) → Conn → Conn
  assign_cipher_states none c = c
  assign_cipher_states (some p) c =
      if c.is_client
      then record c { cs_out = some p.0; cs_in = some p.1 }
      else record c { cs_out = some p.1; cs_in = some p.0 }

  -- A write round of the legacy loop; `is_first` says that it is the first message.
  unfoldable pub handshake_write : Bool → Action Conn (Unit {0})
  handshake_write is_first = do
    c ← gets (λ c. c)
    let neg = if is_first && c.is_client then c.initial_neg_data else []
    (msg, cs) ← on_hs "noisesocket: WriteMessage" write_message
    on_conn (write_handshake_frame neg msg)
    modify (assign_cipher_states cs)

  unfoldable pub handshake_read : Bool → Action Conn (Unit {0})
  handshake_read is_first = do
    (neg, msg) ← on_conn read_handshake_frame
    c ← gets (λ c. c)
    guard (not (is_first && not c.is_client) || equal neg c.initial_neg_data)
        (text "noisesocket: negotiation_data does not match expected")
    cs ← on_hs "noisesocket: ReadMessage" (read_message msg)
    modify (assign_cipher_states cs)

  unfoldable pub handshake_loop : ℕ → Bool → Bool → Action Conn (Unit {0})
  handshake_loop zero state is_first = pure tt
  handshake_loop (suc k) true is_first = do handshake_write is_first; handshake_loop k false false
  handshake_loop (suc k) false is_first = do handshake_read is_first; handshake_loop k true false

  -- Handshake where `neg` is nil.
  unfoldable pub run_handshake : Action Conn (Unit {0})
  run_handshake = do
    c ← gets (λ c. c)
    let cfg = with_prologue (build_prologue c.initial_neg_data c.app_prologue) c.cfg
    h ← wrapping "noisesocket: NewHandshakeState" (lift (new_handshake_state cfg))
    modify (λ c. record c { hs = some h })
    handshake_loop (messages cfg) c.is_client true
    modify (λ c. record c { handshake_done = true })

  -- Where `neg` is nil; Negotiate has the other case.
  unfoldable pub handshake : Action Conn (Unit {0})
  handshake c = if c.handshake_done then ret tt c else run_handshake c

  unfoldable pub fingerprint : Conn → Bytes
  fingerprint c = elim c.hs [
    | none ↦ replicate 32 0
    | some h ↦
        if c.handshake_done then take 32 (channel_binding h ++ replicate 32 0) else replicate 32 0
  ]

  abbrev pub on_nonce : Error → Conn → Conn
  on_nonce e c = if is_max_nonce e then record c { conn = close c.conn } else c

  unfoldable pub encrypt_out : Bytes → Action Conn Bytes
  encrypt_out p c = elim c.cs_out [
    | none ↦ raise (panics "nil cipher state") c
    | some s ↦ elim (encrypt p s) [
      | ret b s' ↦ ret b (record c { cs_out = some s' })
      | raise e s' ↦
          raise (wrap "noisesocket: Encrypt" e) (on_nonce e (record c { cs_out = some s' }))
    ]
  ]

  unfoldable pub decrypt_in : Bytes → Action Conn Bytes
  decrypt_in b c = elim c.cs_in [
    | none ↦ raise (panics "nil cipher state") c
    | some s ↦ elim (decrypt b s) [
      | ret p s' ↦ ret p (record c { cs_in = some s' })
      | raise e s' ↦
          raise (wrap "noisesocket: Decrypt" e) (on_nonce e (record c { cs_in = some s' }))
    ]
  ]

  abbrev pub max_body : ℕ
  max_body = max_message_len - 2 - 16

  unfoldable pub write_body : Bytes → Action Conn (Unit {0})
  write_body body = do
    ciphertext ← encrypt_out (put_uint16 [] (length body) ++ body)
    on_conn (write_length_prefixed ciphertext)

  -- The loop, `for len(p) > 0`; each round takes a byte at least.
  unfoldable pub write_loop : ℕ → ℕ → Bytes → Action Conn ℕ
  write_loop fuel total [] = pure total
  write_loop zero total (b ∷ p) = λ c. raise (panics "out of fuel") c
  write_loop (suc fuel) total (b ∷ p) = do
    let n = min (length (b ∷ p)) max_body
    write_body (take n (b ∷ p))
    write_loop fuel (total + n) (drop n (b ∷ p))

  unfoldable pub write : Bytes → Action Conn ℕ
  write p = do handshake; write_loop (length p) 0 p

  unfoldable pub read_next : ℕ → Action Conn Bytes
  read_next size = do
    ciphertext ← on_conn read_length_prefixed
    plaintext ← decrypt_in ciphertext
    guard (not (ltb (length plaintext) 2))
        (text "noisesocket: payload too short for body_len header")
    let body_len = of_be16 plaintext
    guard (not (ltb (length plaintext) (2 + body_len)))
        (text "noisesocket: body_len exceeds payload")
    let body = take body_len (drop 2 plaintext)
    modify (λ c. record c { input_buffer = drop size body })
    pure (take size body)

  unfoldable pub read_buffered : ℕ → Action Conn Bytes
  read_buffered size c =
      ret (take size c.input_buffer) (record c { input_buffer = drop size c.input_buffer })

  -- conn.Read into a buffer of `size` bytes: what it copies.
  unfoldable pub read : ℕ → Action Conn Bytes
  read size = do
    handshake
    if size == 0 then pure [] else do
      buf ← gets (λ c. c.input_buffer)
      if ltb 0 (length buf) then read_buffered size else read_next size
