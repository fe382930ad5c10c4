-- ===== src/Noisesocket/Conn/Session.antt =====
-- What one end of conn.go reads of what the other wrote, behind the handshake.
use noisecat.Base.{
  ℕ, zero, suc, ◌+◌, ◌*◌, ◌%◌, ◌/◌, ◌<◌, ◌≤◌, ◌++◌, ◌≡◌, refl, arith, Bool, true, false, Option,
  some, List, [], ◌∷◌, Bytes, length, take, drop, ltb, le→ltb, lt→ltb, ◌==◌, append_assoc,
  append-nil, take_all, ret, Action, ◌>>=◌, ◌>>◌, pure, Stream, open_stream, write_all,
}
use noisecat.Flynn.{NoiseLibrary, IsCipher}
use noisecat.Flynn.Parts.{cut, size_of, round_takes, round_total, part_short}
use noisecat.Flynn.Wire.{prefixed, wire_of, steps}
use noisecat.Noisesocket.Framing.{put_uint16, write_length_prefixed}
use noisecat.Noisesocket.Framing.Frames.{read_length_prefixed_lem}
use noisecat.Noisesocket.Conn.{
  Conn, on_conn, handshake, encrypt_out, decrypt_in, max_body, write_body, write_loop, read_next,
  read_buffered, read,
}

module _ (l : NoiseLibrary) where
  open l use {Config, HandshakeState, CipherState}

  -- A connection whose handshake is done.
  abbrev pub ready :
      Stream
      → Bool
      → Config
      → Bytes
      → Option HandshakeState
      → CipherState
      → CipherState
      → Bytes
      → Conn l
  ready s client cfg app h cs_in cs_out buf = record {
    conn = s;
    is_client = client;
    cfg = cfg;
    initial_neg_data = [];
    app_prologue = app;
    hs = h;
    handshake_done = true;
    cs_in = some cs_in;
    cs_out = some cs_out;
    input_buffer = buf;
  }

  -- A read into a buffer of each of the sizes, and all that they return.
  unfoldable pub reads : List ℕ → Action (Conn l) Bytes
  reads [] = pure []
  reads (n ∷ ns) = do a ← read l n; b ← reads ns; pure (a ++ b)

  module _ (c : IsCipher l) where
    open c use {
      remaining, sealed, stepped, encrypt_ok, decrypt_ok, length-sealed, remaining-stepped,
    }

    write_body_lem :
        (part i o buf app : Bytes) (client : Bool) (cfg : Config) (h : Option HandshakeState)
        (si so : CipherState)
        → 0 < remaining so
        → length part ≤ max_body l
        → write_body l part (ready (open_stream i o) client cfg app h si so buf)
          ≡ ret tt (
              ready
                (open_stream i (o ++ prefixed (sealed (prefixed part) so)))
                client
                cfg
                app
                h
                si
                (stepped so)
                buf)
    unfolding write_body encrypt_out write_length_prefixed put_uint16 write_all
    write_body_lem part i o buf app client cfg h si so left short =
        let fits : ltb 0xFFFF (length (sealed (prefixed part) so)) ≡ false =
          le→ltb 0xFFFF (length (sealed (prefixed part) so))
            (omega (arith, length-sealed (prefixed part) so)) in
        simp
          (
            encrypt_ok (prefixed part) so left (omega arith),
            ◌>>=◌,
            ◌>>◌,
            on_conn,
            write_length_prefixed,
            fits,
          )
          refl

    pub write_loop_lem :
        (fuel : ℕ) (p i o buf app : Bytes) (client : Bool) (cfg : Config)
        (h : Option HandshakeState) (si so : CipherState) (n : ℕ)
        → length p ≤ fuel
        → length (cut (max_body l) fuel p) ≤ remaining so
        → write_loop l fuel n p (ready (open_stream i o) client cfg app h si so buf)
          ≡ ret (n + length p) (
              ready
                (open_stream i (o ++ wire_of l c prefixed so (cut (max_body l) fuel p)))
                client
                cfg
                app
                h
                si
                (steps l c so (cut (max_body l) fuel p))
                buf)
    unfolding write_loop cut
    write_loop_lem zero [] i o buf app client cfg h si so n enough left =
        let same : n + 0 ≡ n = omega arith in simp (same, append-nil) refl
    write_loop_lem (suc fuel) [] i o buf app client cfg h si so n enough left =
        let same : n + 0 ≡ n = omega arith in simp (same, append-nil) refl
    write_loop_lem zero (b ∷ p) i o buf app client cfg h si so n enough left = absurd (omega arith)
    write_loop_lem (suc fuel) (b ∷ p) i o buf app client cfg h si so n enough left =
        let q : Bytes = b ∷ p in
        let m = size_of (max_body l) q in
        let some_left : 0 < remaining so = omega arith in
        let frame = prefixed (sealed (prefixed (take m q)) so) in
        let rec =
          write_loop_lem fuel (drop m q) i (o ++ frame) buf app client cfg h si (stepped so) (n + m)
            (omega (arith, round_takes (max_body l) b p (omega arith)))
            (omega (arith, remaining-stepped so some_left)) in
        simp
          (
            write_body_lem (take m q) i o buf app client cfg h si so some_left
                (part_short (max_body l) q),
            ◌>>=◌,
            ◌>>◌,
            rec,
            round_total (max_body l) q n,
            append_assoc,
          )
          refl

    pub read_next_lem :
        (part rest o app : Bytes) (client : Bool) (cfg : Config) (h : Option HandshakeState)
        (si so : CipherState) (size : ℕ)
        → 0 < remaining si
        → length part ≤ max_body l
        → 0 < size
        → read l size (
            ready
              (open_stream (prefixed (sealed (prefixed part) si) ++ rest) o)
              client
              cfg
              app
              h
              si
              so
              [])
          ≡ ret
              (take size part)
              (ready (open_stream rest o) client cfg app h (stepped si) so (drop size part))
    unfolding read handshake read_next decrypt_in
    read_next_lem part rest o app client cfg h si so size left short positive =
        let some_room : (size == 0) ≡ false = ground arith in
        let n : length part / 256 % 256 * 256 + length part % 256 ≡ length part = omega arith in
        let two : ltb (length (prefixed part)) 2 ≡ false =
          le→ltb (length (prefixed part)) 2 (omega arith) in
        let whole : ltb (length (prefixed part)) (2 + length part) ≡ false =
          le→ltb (length (prefixed part)) (2 + length part) (omega arith) in
        simp
          (
            ◌>>=◌,
            ◌>>◌,
            some_room,
            read_next,
            on_conn,
            read_length_prefixed_lem (sealed (prefixed part) si) rest o
                (omega (arith, length-sealed (prefixed part) si)),
            decrypt_ok (prefixed part) si left (omega arith),
            two,
            n,
            whole,
            take_all (length part) part (omega arith),
          )
          refl

    pub read_buffered_lem :
        (i o buf app : Bytes) (client : Bool) (cfg : Config) (h : Option HandshakeState)
        (si so : CipherState) (size : ℕ)
        → 0 < size
        → 0 < length buf
        → read l size (ready (open_stream i o) client cfg app h si so buf)
          ≡ ret (take size buf) (ready (open_stream i o) client cfg app h si so (drop size buf))
    unfolding read handshake read_buffered
    read_buffered_lem i o buf app client cfg h si so size positive held =
        let some_room : (size == 0) ≡ false = ground arith in
        simp (◌>>=◌, ◌>>◌, some_room, lt→ltb 0 (length buf) held) refl
