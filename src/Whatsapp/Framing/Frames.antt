-- ===== src/Whatsapp/Framing/Frames.antt =====
-- What either end of a framed connection sees of the other's frames.
use noisecat.Base.{
  ℕ, zero, suc, ◌+◌, ◌*◌, ◌/◌, ◌%◌, ◌^◌, ◌≤◌, ◌++◌, ◌≡◌, ◌∙◌, refl, arith, Bool, true, false, [],
  ◌∷◌, List, Bytes, length, All, if◌then◌else◌, le→ltb, ret, Action, ◌>>=◌, ◌>>◌, pure, open_stream,
  write_all, read_full-append, append_assoc, append-nil,
}
use noisecat.Whatsapp.Framing.{
  FramedConn, max_frame_len, wa_conn_header, on_rw, be24, write_frame, read_frame, consume_header,
}

-- A framed connection over an intact stream.
abbrev pub framed : Bytes → Bytes → Bool → Bool → FramedConn
framed i o w r = record { rw = open_stream i o; write_header = w; read_header = r }

abbrev pub wire_frame : Bool → Bytes → Bytes
wire_frame header payload =
    (if header then wa_conn_header else []) ++ (be24 (length payload) ++ payload)

pub write_frame_lem :
    (payload i o : Bytes) (w r : Bool)
    → length payload ≤ max_frame_len
    → write_frame payload (framed i o w r) ≡ ret tt (framed i (o ++ wire_frame w payload) false r)
unfolding write_frame write_all
write_frame_lem payload i o w r h = rw (le→ltb max_frame_len (length payload) h) refl

read_payload :
    (payload rest o : Bytes) (w : Bool)
    → length payload ≤ max_frame_len
    → read_frame (framed ((be24 (length payload) ++ payload) ++ rest) o w false)
      ≡ ret payload (framed rest o w false)
unfolding read_frame
read_payload payload rest o w h =
    let n : length payload / 2 ^ 16 % 256 * 2 ^ 16
          + length payload / 2 ^ 8 % 256 * 2 ^ 8
          + length payload % 256
        ≡ length payload =
      omega arith in
    simp
      (
        read_full-append 3 (be24 (length payload)) (payload ++ rest) o refl,
        ◌>>=◌,
        on_rw,
        n,
        le→ltb max_frame_len (length payload) h,
        read_full-append (length payload) payload rest o refl,
      )
      refl

-- Behind the header the first frame is like any other.
read_header :
    (x o : Bytes) (w : Bool)
    → read_frame (framed (wa_conn_header ++ x) o w true) ≡ read_frame (framed x o w false)
unfolding read_frame consume_header
read_header x o w = simp (read_full-append 4 wa_conn_header x o refl, ◌>>=◌, ◌>>◌, on_rw) refl

pub read_frame_lem :
    (payload rest o : Bytes) (w r : Bool)
    → length payload ≤ max_frame_len
    → read_frame (framed (wire_frame r payload ++ rest) o w r) ≡ ret payload (framed rest o w false)
read_frame_lem payload rest o w false h = read_payload payload rest o w h
read_frame_lem payload rest o w true h = read_header _ o w ∙ read_payload payload rest o w h

pub write_frames : List Bytes → Action FramedConn (Unit {0})
write_frames [] = pure tt
write_frames (p ∷ ps) = do write_frame p; write_frames ps

pub read_frames : ℕ → Action FramedConn (List Bytes)
read_frames zero = pure []
read_frames (suc k) = do p ← read_frame; ps ← read_frames k; pure (p ∷ ps)

-- The bytes of a run of frames; the header stands before the first only.
abbrev wire_frames : Bool → List Bytes → Bytes
wire_frames header [] = []
wire_frames header (p ∷ ps) = wire_frame header p ++ wire_frames false ps

-- The flag behind a run of frames.
abbrev pub left : Bool → List Bytes → Bool
left flag [] = flag
left flag (p ∷ ps) = false

left-false : (ps : List Bytes) → left false ps ≡ false
left-false [] = refl
left-false (p ∷ ps) = refl

write_frames_lem :
    (ps : List Bytes) (i o : Bytes) (w r : Bool)
    → All (λ p. length p ≤ max_frame_len) ps
    → write_frames ps (framed i o w r) ≡ ret tt (framed i (o ++ wire_frames w ps) (left w ps) r)
unfolding write_frames
write_frames_lem [] i o w r h = simp append-nil refl
write_frames_lem (p ∷ ps) i o w r (h, hs) =
    simp
      (
        write_frame_lem p i o w r h,
        ◌>>=◌,
        write_frames_lem ps i (o ++ wire_frame w p) false r hs,
        append_assoc,
        left-false ps,
      )
      refl

read_frames_lem :
    (ps : List Bytes) (rest o : Bytes) (w r : Bool)
    → All (λ p. length p ≤ max_frame_len) ps
    → read_frames (length ps) (framed (wire_frames r ps ++ rest) o w r)
      ≡ ret ps (framed rest o w (left r ps))
unfolding read_frames
read_frames_lem [] rest o w r h = refl
read_frames_lem (p ∷ ps) rest o w r (h, hs) =
    simp
      (
        append_assoc (wire_frame r p) (wire_frames false ps) rest,
        read_frame_lem p (wire_frames false ps ++ rest) o w r h,
        ◌>>=◌,
        read_frames_lem ps rest o w false hs,
        left-false ps,
      )
      refl

-- Payloads that fit the 3-byte length, written one after the other on an intact stream, are read
-- back one by one, whatever follows them. The header goes out before the first one only, where the
-- writer has it to send, and the reader takes it where it expects it.
pub read_frames-write_frames :
    (ps : List Bytes) (i o rest o' : Bytes) (header w r : Bool)
    → All (λ p. length p ≤ max_frame_len) ps
    → (wire : Bytes) × (write_frames ps (framed i o header r)
        ≡ ret tt (framed i (o ++ wire) (left header ps) r))
      × (read_frames (length ps) (framed (wire ++ rest) o' w header)
          ≡ ret ps (framed rest o' w (left header ps)))
read_frames-write_frames ps i o rest o' header w r h = (
  wire_frames header ps,
  write_frames_lem ps i o header r h,
  read_frames_lem ps rest o' w header h,
)
