-- ===== src/Noisesocket/Framing/Frames.antt =====
-- Frames as the other end reads them, and what the prologue binds.
use noisecat.Base.{
  ◌+◌, ◌*◌, ◌/◌, ◌%◌, ◌≤◌, ◌++◌, ◌≡◌, ◌∙◌, ap, sym, refl, arith, false, [], ◌∷◌, Bytes, length,
  take, drop, get_or, take-append, drop-append, le→ltb, ◌==◌, be16, ret, ◌>>=◌, ◌>>◌, open_stream,
  read_full-append, write_all, append_assoc,
}
use noisecat.Flynn.Wire.{prefixed}
use noisecat.Noisesocket.Framing.{
  max_message_len, put_uint16, build_prologue, frame_bytes, write_handshake_frame,
  read_length_prefixed, read_handshake_frame,
}

pub read_length_prefixed_lem :
    (b rest o : Bytes)
    → length b ≤ max_message_len
    → read_length_prefixed (open_stream (prefixed b ++ rest) o) ≡ ret b (open_stream rest o)
unfolding read_length_prefixed
read_length_prefixed_lem [] rest o h =
    simp (read_full-append 2 (0 ∷ 0 ∷ []) rest o refl, ◌>>=◌) refl
read_length_prefixed_lem (x ∷ b) rest o h =
    let n : length (x ∷ b) / 256 % 256 * 256 + length (x ∷ b) % 256 ≡ length (x ∷ b) =
      omega arith in
    let some_bytes : (length (x ∷ b) == 0) ≡ false = ground arith in
    simp
      (
        read_full-append 2 (be16 (length (x ∷ b))) ((x ∷ b) ++ rest) o refl,
        ◌>>=◌,
        n,
        some_bytes,
        read_full-append (length (x ∷ b)) (x ∷ b) rest o refl,
      )
      refl

pub frame_bytes_lem : (neg msg : Bytes) → frame_bytes neg msg ≡ prefixed neg ++ prefixed msg
unfolding frame_bytes put_uint16
frame_bytes_lem neg msg = simp append_assoc refl

-- A handshake frame whose parts fit their 16-bit lengths is read back as the two parts, also where
-- one is empty, whatever follows it.
pub read-write_handshake_frame :
    (neg msg i o rest o' : Bytes)
    → length neg ≤ max_message_len
    → length msg ≤ max_message_len
    → (wire : Bytes) × (write_handshake_frame neg msg (open_stream i o)
        ≡ ret tt (open_stream i (o ++ wire)))
      × (read_handshake_frame (open_stream (wire ++ rest) o')
          ≡ ret (neg, msg) (open_stream rest o'))
unfolding write_handshake_frame write_all read_handshake_frame
read-write_handshake_frame neg msg i o rest o' hn hm = (
  frame_bytes neg msg,
  simp (◌>>=◌, ◌>>◌, le→ltb max_message_len (length neg) hn, le→ltb max_message_len (length msg) hm)
      refl,
  simp
      (
        frame_bytes_lem neg msg,
        append_assoc (prefixed neg) (prefixed msg) rest,
        read_length_prefixed_lem neg (prefixed msg ++ rest) o' hn,
        ◌>>=◌,
        read_length_prefixed_lem msg rest o' hm,
      )
      refl,
)

-- The prologue binds both of its parts: two prologues are the same only where the negotiation data
-- and the application's prologue are, for negotiation data that fits its 16-bit length.
pub build_prologue_injective :
    (neg app neg' app' : Bytes)
    → length neg ≤ max_message_len
    → length neg' ≤ max_message_len
    → build_prologue neg app ≡ build_prologue neg' app'
    → (neg ≡ neg') × (app ≡ app')
unfolding build_prologue put_uint16
build_prologue_injective neg app neg' app' h h' same =
    let high : length neg / 256 % 256 ≡ length neg' / 256 % 256 = ap (λ b. get_or b 16 0) same in
    let low : length neg % 256 ≡ length neg' % 256 = ap (λ b. get_or b 17 0) same in
    let size : length neg ≡ length neg' = omega arith in
    let behind : neg ++ app ≡ neg' ++ app' = ap (drop 18) same in
    (
      sym (take-append (length neg) neg app refl)
          ∙ ap (take (length neg)) behind
          ∙ take-append (length neg) neg' app' (sym size),
      sym (drop-append (length neg) neg app refl)
          ∙ ap (drop (length neg)) behind
          ∙ drop-append (length neg) neg' app' (sym size),
    )
