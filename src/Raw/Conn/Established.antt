-- ===== src/Raw/Conn/Established.antt =====
-- What one end of conn.go reads of what the other wrote, behind the handshake.
use noisecat.Base.{
  ℕ, zero, suc, ◌+◌, ◌-◌, ◌*◌, ◌%◌, ◌/◌, ◌<◌, ◌≤◌, ◌++◌, ◌≡◌, refl, arith, Bool, true, false, not,
  ◌&&◌, Option, some, [], ◌∷◌, Bytes, length, take, drop, ltb, leb, le→ltb, le→leb, ◌==◌,
  append_assoc, append-nil, be16, Error, ret, ◌>>=◌, ◌>>◌, Stream, open_stream, read_full-append,
  write_all,
}
use noisecat.Flynn.{NoiseLibrary, IsCipher, max_msg_len}
use noisecat.Flynn.Parts.{cut, size_of, round_takes, round_total, part_short}
use noisecat.Flynn.Wire.{prefixed, wire_of, steps}
use noisecat.Raw.Conn.{
  Conn, read_bytes, read_message16, write_message16, on_conn, handshake, encrypt_out, decrypt_in,
  max_fragment, write_fragment, write_loop, read_next, read_buffered, read,
}

read_bytes-append :
    (n : ℕ) (b rest o : Bytes)
    → length b ≡ n
    → read_bytes n (open_stream (b ++ rest) o) ≡ ret b (open_stream rest o)
unfolding read_bytes
read_bytes-append n b rest o h = rw (read_bytes, read_full-append n b rest o h) refl

-- A message that fits its length is read back, and what follows it stays.
pub read_message16-prefixed :
    (e : Error) (b rest o : Bytes)
    → length b ≤ max_msg_len
    → read_message16 e (open_stream (prefixed b ++ rest) o) ≡ ret b (open_stream rest o)
unfolding read_message16
read_message16-prefixed e b rest o h =
    let n : length b / 256 % 256 * 256 + length b % 256 ≡ length b = omega arith in
    simp
      (
        read_bytes-append 2 (be16 (length b)) (b ++ rest) o refl,
        ◌>>=◌,
        ◌>>◌,
        n,
        le→ltb max_msg_len (length b) h,
        read_bytes-append (length b) b rest o refl,
      )
      refl

module _ (l : NoiseLibrary) where
  open l use {Config, HandshakeState, CipherState, messages}

  -- A connection whose handshake is complete.
  abbrev pub ready :
      Stream → Bool → Config → Option HandshakeState → CipherState → CipherState → Bytes → Conn l
  ready s client cfg h cs_in cs_out buf = record {
    conn = s;
    is_client = client;
    config = cfg;
    hs = h;
    handshake_complete = true;
    cs_in = some cs_in;
    cs_out = some cs_out;
    input_buffer = buf;
  }

  pub two_way : (client : Bool) (n : ℕ) → 2 ≤ n → (not client && ltb n 2) ≡ false
  two_way true n h = refl
  two_way false n h = le→ltb n 2 h

  module _ (c : IsCipher l) where
    open c use {
      remaining, sealed, stepped, encrypt_ok, decrypt_ok, length-sealed, remaining-stepped,
    }

    write_fragment_lem :
        (part i o buf : Bytes) (client : Bool) (cfg : Config) (h : Option HandshakeState)
        (si so : CipherState)
        → 0 < remaining so
        → length part ≤ max_fragment l
        → write_fragment l part (ready (open_stream i o) client cfg h si so buf)
          ≡ ret tt (
              ready
                (open_stream i (o ++ prefixed (sealed part so)))
                client
                cfg
                h
                si
                (stepped so)
                buf)
    unfolding write_fragment encrypt_out write_message16 write_all
    write_fragment_lem part i o buf client cfg h si so left short =
        let fits : ltb 0xFFFF (length (sealed part so)) ≡ false =
          le→ltb 0xFFFF (length (sealed part so)) (omega (arith, length-sealed part so)) in
        simp (encrypt_ok part so left short, ◌>>=◌, ◌>>◌, fits) refl

    pub write_loop_lem :
        (fuel : ℕ) (p i o buf : Bytes) (client : Bool) (cfg : Config) (h : Option HandshakeState)
        (si so : CipherState) (n : ℕ)
        → length p ≤ fuel
        → length (cut (max_fragment l) fuel p) ≤ remaining so
        → write_loop l fuel n p (ready (open_stream i o) client cfg h si so buf)
          ≡ ret (n + length p) (
              ready
                (open_stream i (o ++ wire_of l c (λ q. q) so (cut (max_fragment l) fuel p)))
                client
                cfg
                h
                si
                (steps l c so (cut (max_fragment l) fuel p))
                buf)
    unfolding write_loop cut
    write_loop_lem zero [] i o buf client cfg h si so n enough left =
        let same : n + 0 ≡ n = omega arith in simp (same, append-nil) refl
    write_loop_lem (suc fuel) [] i o buf client cfg h si so n enough left =
        let same : n + 0 ≡ n = omega arith in simp (same, append-nil) refl
    write_loop_lem zero (b ∷ p) i o buf client cfg h si so n enough left = absurd (omega arith)
    write_loop_lem (suc fuel) (b ∷ p) i o buf client cfg h si so n enough left =
        let q : Bytes = b ∷ p in
        let m = size_of (max_fragment l) q in
        let some_left : 0 < remaining so = omega arith in
        let frame = prefixed (sealed (take m q) so) in
        let rec =
          write_loop_lem fuel (drop m q) i (o ++ frame) buf client cfg h si (stepped so) (n + m)
            (omega (arith, round_takes (max_fragment l) b p (omega arith)))
            (omega (arith, remaining-stepped so some_left)) in
        simp
          (
            write_fragment_lem (take m q) i o buf client cfg h si so some_left
                (part_short (max_fragment l) q),
            ◌>>=◌,
            ◌>>◌,
            rec,
            round_total (max_fragment l) q n,
            append_assoc,
          )
          refl

    pub read_next_lem :
        (part rest o buf : Bytes) (client : Bool) (cfg : Config) (h : Option HandshakeState)
        (si so : CipherState) (size : ℕ)
        → 0 < remaining si
        → length part ≤ max_fragment l
        → 2 ≤ messages cfg
        → length buf < size
        → read l size
            (ready (open_stream (prefixed (sealed part si) ++ rest) o) client cfg h si so buf)
          ≡ ret (buf ++ take (size - length buf) part) (
              ready
                (open_stream rest o)
                client
                cfg
                h
                (stepped si)
                so
                (drop (size - length buf) part))
    unfolding read handshake read_next decrypt_in
    read_next_lem part rest o buf client cfg h si so size left short both small =
        let positive : (size == 0) ≡ false = ground arith in
        let beyond : leb size (length buf) ≡ false = ground arith in
        simp
          (
            ◌>>=◌,
            ◌>>◌,
            positive,
            two_way client (messages cfg) both,
            beyond,
            read_next,
            on_conn,
            read_message16-prefixed _ (sealed part si) rest o
                (omega (arith, length-sealed part si)),
            decrypt_ok part si left short,
          )
          refl

    pub read_buffered_lem :
        (i o buf : Bytes) (client : Bool) (cfg : Config) (h : Option HandshakeState)
        (si so : CipherState) (size : ℕ)
        → 2 ≤ messages cfg
        → 0 < size
        → size ≤ length buf
        → read l size (ready (open_stream i o) client cfg h si so buf)
          ≡ ret (take size buf) (ready (open_stream i o) client cfg h si so (drop size buf))
    unfolding read handshake read_buffered
    read_buffered_lem i o buf client cfg h si so size both positive enough =
        let some_room : (size == 0) ≡ false = ground arith in
        simp
          (
            ◌>>=◌,
            ◌>>◌,
            some_room,
            two_way client (messages cfg) both,
            le→leb size (length buf) enough,
          )
          refl
