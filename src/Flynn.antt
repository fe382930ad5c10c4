-- ===== src/Flynn.antt =====
-- What pkg/transport/raw and pkg/transport/noisesocket take from github.com/flynn/noise.
pub mod Parts
pub mod Wire
pub mod Toy
use noisecat.Base.{
  ℕ, suc, ◌+◌, ◌-◌, ◌<◌, ◌≤◌, ◌≡◌, Bool, Option, none, some, Bytes, length, Error, Result, Action,
  ret,
}

-- noise.MaxMsgLen
abbrev pub max_msg_len : ℕ
max_msg_len = 65535

-- A method that changes its receiver is an action on it. `write_message` and `read_message` have the
-- two cipher states behind the last message only; a payload is always nil and its value unused.
pub record NoiseLibrary : Type 1 where
  pub Config : Type 0
  pub HandshakeState : Type 0
  pub CipherState : Type 0
  -- len(cfg.Pattern.Messages)
  pub messages : Config → ℕ
  pub peer_static : Config → Option Bytes
  pub prologue : Config → Bytes
  pub with_prologue : Bytes → Config → Config
  pub new_handshake_state : Config → Result HandshakeState
  pub write_message : Action HandshakeState (Bytes × Option (CipherState × CipherState))
  pub read_message : Bytes → Action HandshakeState (Option (CipherState × CipherState))
  pub channel_binding : HandshakeState → Bytes
  pub encrypt : Bytes → Action CipherState Bytes
  pub decrypt : Bytes → Action CipherState Bytes
  -- errors.Is(err, noise.ErrMaxNonce)
  pub is_max_nonce : Error → Bool

-- The documented behaviour of a cipher state: until its nonces run out it seals what fits a message,
-- a state with the same key and nonce opens that, and both move on alike.
pub record IsCipher (l : NoiseLibrary) : Type 0 where
  pub remaining : l.CipherState → ℕ
  pub sealed : Bytes → l.CipherState → Bytes
  pub stepped : l.CipherState → l.CipherState
  pub encrypt_ok :
      (p : Bytes) (s : l.CipherState)
      → 0 < remaining s
      → length p ≤ max_msg_len - 16
      → l.encrypt p s ≡ ret (sealed p s) (stepped s)
  pub decrypt_ok :
      (p : Bytes) (s : l.CipherState)
      → 0 < remaining s
      → length p ≤ max_msg_len - 16
      → l.decrypt (sealed p s) s ≡ ret p (stepped s)
  pub length-sealed : (p : Bytes) (s : l.CipherState) → length (sealed p s) ≡ length p + 16
  pub remaining-stepped :
      (s : l.CipherState) → 0 < remaining s → suc (remaining (stepped s)) ≡ remaining s

-- The documented behaviour of a handshake: with `k + 1` messages to go, and the first of two states to
-- write, it writes one that the other takes; behind the last one both have the cipher states.
pub record IsHandshake (l : NoiseLibrary) : Type 1 where
  pub Talk : ℕ → l.HandshakeState → l.HandshakeState → Type 0
  pub message : l.HandshakeState → Bytes
  pub wrote : l.HandshakeState → l.HandshakeState
  pub took : l.HandshakeState → l.HandshakeState
  pub states : l.HandshakeState → Option (l.CipherState × l.CipherState)
  pub write_ok :
      (k : ℕ) (a b : l.HandshakeState)
      → Talk (suc k) a b
      → l.write_message a ≡ ret (message a, states a) (wrote a)
  pub read_ok :
      (k : ℕ) (a b : l.HandshakeState)
      → Talk (suc k) a b
      → l.read_message (message a) b ≡ ret (states a) (took b)
  pub length-message :
      (k : ℕ) (a b : l.HandshakeState) → Talk (suc k) a b → length (message a) ≤ max_msg_len
  -- WriteMessage and ReadMessage return the cipher states with the last message, and nil before it.
  pub not_yet : (k : ℕ) (a b : l.HandshakeState) → Talk (suc (suc k)) a b → states a ≡ none
  pub split :
      (a b : l.HandshakeState)
      → Talk 1 a b
      → (p : l.CipherState × l.CipherState) × (states a ≡ some p)
  pub go_on : (k : ℕ) (a b : l.HandshakeState) → Talk (suc k) a b → Talk k (took b) (wrote a)
