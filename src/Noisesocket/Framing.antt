-- ===== src/Noisesocket/Framing.antt =====
-- pkg/transport/noisesocket/conn.go: the framing helpers. A nil slice and an empty one count as the
-- same, since their users ask only for the length.
pub mod Frames
use noisecat.Base.{
  ℕ, ◌++◌, not, [], ◌∷◌, Bytes, length, be16, of_be16, ltb, ◌==◌, if◌then◌else◌, text, Action,
  ◌>>=◌, ◌>>◌, pure, guard, Stream, read_full, write_all,
}

abbrev pub max_message_len : ℕ
max_message_len = 0xFFFF

-- "NoiseSocketInit1"
abbrev pub prologue_magic : Bytes
prologue_magic =
    b'N' ∷ b'o' ∷ b'i' ∷ b's' ∷ b'e' ∷ b'S' ∷ b'o' ∷ b'c' ∷ b'k' ∷ b'e' ∷ b't' ∷ b'I' ∷ b'n' ∷ b'i'
    ∷ b't' ∷ b'1' ∷ []

unfoldable pub put_uint16 : Bytes → ℕ → Bytes
put_uint16 dst n = dst ++ be16 n

unfoldable pub build_prologue : Bytes → Bytes → Bytes
build_prologue initial_neg_data app_prologue =
    put_uint16 prologue_magic (length initial_neg_data) ++ (initial_neg_data ++ app_prologue)

-- frameBytes, and the buffer of writeHandshakeFrame.
unfoldable pub frame_bytes : Bytes → Bytes → Bytes
frame_bytes neg msg = put_uint16 (put_uint16 [] (length neg) ++ neg) (length msg) ++ msg

unfoldable pub write_handshake_frame : Bytes → Bytes → Action Stream (Unit {0})
write_handshake_frame neg_data noise_msg = do
  guard (not (ltb max_message_len (length neg_data)))
      (text "noisesocket: negotiation_data exceeds 16-bit length")
  guard (not (ltb max_message_len (length noise_msg)))
      (text "noisesocket: noise_message exceeds 16-bit length")
  write_all (frame_bytes neg_data noise_msg)

unfoldable pub write_length_prefixed : Bytes → Action Stream (Unit {0})
write_length_prefixed payload = do
  guard (not (ltb max_message_len (length payload)))
      (text "noisesocket: payload exceeds 16-bit length frame")
  write_all (put_uint16 [] (length payload) ++ payload)

unfoldable pub read_length_prefixed : Action Stream Bytes
read_length_prefixed = do
  hdr ← read_full 2
  if of_be16 hdr == 0 then pure [] else read_full (of_be16 hdr)

unfoldable pub read_handshake_frame : Action Stream (Bytes × Bytes)
read_handshake_frame = do
  neg_data ← read_length_prefixed
  noise_msg ← read_length_prefixed
  pure (neg_data, noise_msg)
