-- ===== src/Whatsapp/Conn/Session.antt =====
-- What one end of conn.go reads of what the other wrote.
use noisecat.Base.{
  ℕ, zero, suc, ◌+◌, ◌%◌, ◌^◌, ◌≤◌, ◌++◌, ◌≡◌, refl, arith, Bool, false, Option, true, none, some,
  [], ◌∷◌, Bytes, length, take, drop, min, length-take, length-drop, take-append-drop, take_all,
  drop_all, append_assoc, append-nil, ret, Action, ◌>>=◌, ◌>>◌, pure,
}
use noisecat.Whatsapp.Framing.{FramedConn, max_frame_len}
use noisecat.Whatsapp.Framing.Frames.{framed, wire_frame, write_frame_lem, read_frame_lem}
use noisecat.Whatsapp.Noise.{Library, IsSound, HandshakeResult, generate_iv}
use noisecat.Whatsapp.Conn.{
  Conn, max_plain, on_framed, with_keys, ensure_handshake, write_part, write_loop, write, read,
}

module _ (l : Library) where
  abbrev pub Deferred : Type 0
  Deferred = Option (Action FramedConn (HandshakeResult l))

  abbrev pub has_run : Deferred → Bool
  has_run none = false
  has_run (some fn) = true

  -- A connection behind its handshake, over an intact stream: the dialer's has none to run, the
  -- listener's keeps the one that has run.
  abbrev pub established : Deferred → FramedConn → HandshakeResult l → ℕ → ℕ → Conn l
  established hs f k n m = record {
    framed = f;
    hs_fn = hs;
    hs_done = has_run hs;
    hs_err = none;
    keys = some k;
    write_counter = n;
    read_counter = m;
    read_buf = [];
  }

  established_shaken :
      (hs : Deferred) (f : FramedConn) (k : HandshakeResult l) (n m : ℕ)
      → ensure_handshake l (established hs f k n m) ≡ ret tt (established hs f k n m)
  unfolding ensure_handshake
  established_shaken none f k n m = refl
  established_shaken (some fn) f k n m = refl

  abbrev pub next : ℕ → ℕ
  next n = (n + 1) % 2 ^ 32

  -- So many reads into buffers that have the room, and all that they return.
  pub reads : ℕ → Action (Conn l) Bytes
  reads zero = pure []
  reads (suc c) = do a ← read l (max_plain l); b ← reads c; pure (a ++ b)

  module _ (sound : IsSound l) where
    open sound use {unseal-seal, length-seal}

    abbrev sealed : HandshakeResult l → ℕ → Bytes → Bytes
    sealed k n part = l.seal k.write_key (generate_iv n) part []

    sealed_short :
        (k : HandshakeResult l) (n : ℕ) (part : Bytes)
        → length part ≤ max_plain l
        → length (sealed k n part) ≤ max_frame_len
    sealed_short k n part h = omega (arith, length-seal k.write_key (generate_iv n) part [])

    write_part_lem :
        (hs : Deferred) (k : HandshakeResult l) (part i o : Bytes) (r : Bool) (n m : ℕ)
        → length part ≤ max_plain l
        → write_part l part (established hs (framed i o false r) k n m)
          ≡ ret tt (
              established hs
                (framed i (o ++ wire_frame false (sealed k n part)) false r)
                k
                (next n)
                m)
    unfolding write_part
    write_part_lem hs k part i o r n m h =
        simp
          (
            ◌>>=◌,
            with_keys,
            on_framed,
            write_frame_lem (sealed k n part) i o false r (sealed_short k n part h),
          )
          refl

    -- A frame that the peer wrote is read whole by a buffer that has the room.
    read_lem :
        (hs : Deferred) (k k' : HandshakeResult l) (part rest o : Bytes) (w : Bool) (n m : ℕ)
        → k'.read_key ≡ k.write_key
        → length part ≤ max_plain l
        → read l
            (max_plain l)
            (established hs (framed (wire_frame false (sealed k m part) ++ rest) o w false) k' n m)
          ≡ ret part (established hs (framed rest o w false) k' n (next m))
    unfolding read
    read_lem hs k k' part rest o w n m same h =
        simp
          (
            ◌>>=◌,
            ◌>>◌,
            established_shaken hs (framed (wire_frame false (sealed k m part) ++ rest) o w false) k'
                n m,
            with_keys,
            on_framed,
            read_frame_lem (sealed k m part) rest o w false (sealed_short k m part h),
            same,
            unseal-seal k.write_key (generate_iv m) part [],
            take_all (max_plain l) part h,
            drop_all (max_plain l) part h,
          )
          refl

    abbrev part_size : Bytes → ℕ
    part_size p = min (length p) (max_plain l)

    -- What a call writes: the frames, their number and the counter behind them.
    wire_parts : ℕ → HandshakeResult l → ℕ → Bytes → Bytes
    wire_parts fuel k n [] = []
    wire_parts zero k n (b ∷ p) = []
    wire_parts (suc fuel) k n (b ∷ p) =
        wire_frame false (sealed k n (take (part_size (b ∷ p)) (b ∷ p)))
        ++ wire_parts fuel k (next n) (drop (part_size (b ∷ p)) (b ∷ p))

    parts : ℕ → Bytes → ℕ
    parts fuel [] = 0
    parts zero (b ∷ p) = 0
    parts (suc fuel) (b ∷ p) = suc (parts fuel (drop (part_size (b ∷ p)) (b ∷ p)))

    behind : ℕ → ℕ → Bytes → ℕ
    behind fuel n [] = n
    behind zero n (b ∷ p) = n
    behind (suc fuel) n (b ∷ p) = behind fuel (next n) (drop (part_size (b ∷ p)) (b ∷ p))

    part_short : (p : Bytes) → length (take (part_size p) p) ≤ max_plain l
    part_short p = omega (arith, length-take (part_size p) p)

    -- A round takes a byte at least.
    round_takes : (b : ℕ) (p : Bytes) → length (drop (part_size (b ∷ p)) (b ∷ p)) ≤ length p
    round_takes b p = omega (arith, length-drop (part_size (b ∷ p)) (b ∷ p))

    round_total :
        (p : Bytes) (total : ℕ)
        → total + part_size p + length (drop (part_size p) p) ≡ total + length p
    round_total p total = omega (arith, length-drop (part_size p) p)

    write_loop_lem :
        (hs : Deferred) (fuel : ℕ) (k : HandshakeResult l) (p i o : Bytes) (r : Bool)
        (total n m : ℕ)
        → length p ≤ fuel
        → write_loop l fuel total p (established hs (framed i o false r) k n m)
          ≡ ret
              (total + length p)
              (established hs (framed i (o ++ wire_parts fuel k n p) false r) k (behind fuel n p) m)
    unfolding write_loop wire_parts behind
    write_loop_lem hs zero k [] i o r total n m h =
        let same : total + 0 ≡ total = omega arith in simp (same, append-nil) refl
    write_loop_lem hs (suc fuel) k [] i o r total n m h =
        let same : total + 0 ≡ total = omega arith in simp (same, append-nil) refl
    write_loop_lem hs zero k (b ∷ p) i o r total n m h = absurd (omega arith)
    write_loop_lem hs (suc fuel) k (b ∷ p) i o r total n m h =
        let q : Bytes = b ∷ p in
        let size = part_size q in
        let frame = wire_frame false (sealed k n (take size q)) in
        let rec =
          write_loop_lem hs fuel k (drop size q) i (o ++ frame) r (total + size) (next n) m
            (omega (arith, round_takes b p)) in
        simp
          (
            ◌>>=◌,
            ◌>>◌,
            write_part_lem hs k (take size q) i o r n m (part_short q),
            rec,
            round_total q total,
            append_assoc,
          )
          refl

    reads_lem :
        (hs : Deferred) (fuel : ℕ) (k k' : HandshakeResult l) (p rest o : Bytes) (w : Bool)
        (n m : ℕ)
        → k'.read_key ≡ k.write_key
        → length p ≤ fuel
        → reads
            (parts fuel p)
            (established hs (framed (wire_parts fuel k m p ++ rest) o w false) k' n m)
          ≡ ret p (established hs (framed rest o w false) k' n (behind fuel m p))
    unfolding reads parts wire_parts behind
    reads_lem hs zero k k' [] rest o w n m same h = refl
    reads_lem hs (suc fuel) k k' [] rest o w n m same h = refl
    reads_lem hs zero k k' (b ∷ p) rest o w n m same h = absurd (omega arith)
    reads_lem hs (suc fuel) k k' (b ∷ p) rest o w n m same h =
        let q : Bytes = b ∷ p in
        let size = part_size q in
        let more = wire_parts fuel k (next m) (drop size q) in
        simp
          (
            append_assoc (wire_frame false (sealed k m (take size q))) more rest,
            read_lem hs k k' (take size q) (more ++ rest) o w n m same (part_short q),
            ◌>>=◌,
            reads_lem hs fuel k k' (drop size q) rest o w n (next m) same
                (omega (arith, round_takes b p)),
            take-append-drop size q,
          )
          refl

    -- Whatever is written on an established connection is written whole, its length returned, and
    -- what goes out is read back whole by the other end, whose key for reading and whose counter are
    -- the writer's, whatever follows it; the counters agree afterwards, also where they wrap around. Each
    -- end may be a dialer's connection or a listener's, behind its handshake.
    pub reads-write :
        (hs hs' : Deferred) (k k' : HandshakeResult l) (p i o rest o' : Bytes) (w r : Bool)
        (n m m' : ℕ)
        → k'.read_key ≡ k.write_key
        → (wire : Bytes) × (count n' : ℕ) × (write l p (established hs (framed i o false r) k n m)
            ≡ ret (length p) (established hs (framed i (o ++ wire) false r) k n' m))
          × (reads count (established hs' (framed (wire ++ rest) o' w false) k' m' n)
              ≡ ret p (established hs' (framed rest o' w false) k' m' n'))
    unfolding write
    reads-write hs hs' k k' p i o rest o' w r n m m' same =
        let fuel = length p in
        let whole : 0 + fuel ≡ fuel = omega arith in
        (
          wire_parts fuel k n p,
          parts fuel p,
          behind fuel n p,
          simp
              (
                ◌>>=◌,
                ◌>>◌,
                established_shaken hs (framed i o false r) k n m,
                write_loop_lem hs fuel k p i o r 0 n m (omega arith),
                whole,
              )
              refl,
          reads_lem hs' fuel k k' p rest o' w m' n same (omega arith),
        )
