-- ===== src/Raw/Conn/Handshake.antt =====
-- The two ends of the handshake of conn.go against one another.
use noisecat.Base.{
  ℕ, zero, suc, ◌≤◌, arith, ◌++◌, ◌≡◌, refl, sym, Bool, true, false, Option, none, some, [], Bytes,
  length, le→ltb, append_assoc, append-nil, ok, ret, ◌>>=◌, ◌>>◌, Stream, open_stream, write_all,
}
use noisecat.Flynn.{NoiseLibrary, IsHandshake}
use noisecat.Flynn.Wire.{prefixed}
use noisecat.Raw.Conn.{
  Conn, client, server, on_conn, write_message16, has_key_size, handshake_write, handshake_read,
  handshake_loop, begin, assign, run_handshake, handshake,
}
use noisecat.Raw.Conn.Established.{ready, read_message16-prefixed}

module _ (l : NoiseLibrary) where
  open l use {Config, HandshakeState, CipherState, messages, peer_static, new_handshake_state}

  -- A connection in the middle of its handshake.
  abbrev pub shaking : Stream → Bool → Config → HandshakeState → Conn l
  shaking s is_client cfg h = record {
    conn = s;
    is_client = is_client;
    config = cfg;
    hs = some h;
    handshake_complete = false;
    cs_in = none;
    cs_out = none;
    input_buffer = [];
  }

  module _ (hand : IsHandshake l) where
    open hand use {
      Talk, message, wrote, took, states, write_ok, read_ok, length-message, split, go_on,
    }

    -- While `k` messages are to go, the first state's turn: what each of the two sends, their states
    -- at the end, and the cipher states that the last message left.
    abbrev pub wires : ℕ → HandshakeState → HandshakeState → Bytes × Bytes
    wires zero a b = ([], [])
    wires (suc k) a b = let r = wires k (took b) (wrote a) in (prefixed (message a) ++ r.1, r.0)

    abbrev pub ends : ℕ → HandshakeState → HandshakeState → HandshakeState × HandshakeState
    ends zero a b = (a, b)
    ends (suc k) a b = let r = ends k (took b) (wrote a) in (r.1, r.0)

    abbrev pub last :
        ℕ
        → Option (l.CipherState × l.CipherState)
        → HandshakeState
        → HandshakeState
        → Option (l.CipherState × l.CipherState)
    last zero cs a b = cs
    last (suc k) cs a b = last k (states a) (took b) (wrote a)

    last_lem :
        (k : ℕ) (a b : HandshakeState) (cs : Option (l.CipherState × l.CipherState))
        → 1 ≤ k
        → Talk k a b
        → (p : l.CipherState × l.CipherState) × (last k cs a b ≡ some p)
    last_lem zero a b cs some_left talk = absurd (omega arith)
    last_lem (suc zero) a b cs some_left talk = split a b talk
    last_lem (suc (suc k)) a b cs some_left talk =
        last_lem (suc k) (took b) (wrote a) (states a) (omega arith) (go_on (suc k) a b talk)

    handshake_write_lem :
        (k : ℕ) (a b : HandshakeState) (i o : Bytes) (is_client : Bool) (cfg : Config)
        → Talk (suc k) a b
        → handshake_write l (shaking (open_stream i o) is_client cfg a)
          ≡ ret
              (states a)
              (shaking (open_stream i (o ++ prefixed (message a))) is_client cfg (wrote a))
    unfolding handshake_write write_message16 write_all
    handshake_write_lem k a b i o is_client cfg talk =
        simp
          (
            write_ok k a b talk,
            ◌>>=◌,
            ◌>>◌,
            le→ltb 0xFFFF (length (message a)) (length-message k a b talk),
          )
          refl

    handshake_read_lem :
        (k : ℕ) (a b : HandshakeState) (rest o : Bytes) (is_client : Bool) (cfg : Config)
        → Talk (suc k) a b
        → handshake_read l (shaking (open_stream (prefixed (message a) ++ rest) o) is_client cfg b)
          ≡ ret (states a) (shaking (open_stream rest o) is_client cfg (took b))
    unfolding handshake_read
    handshake_read_lem k a b rest o is_client cfg talk =
        simp
          (
            read_message16-prefixed _ (message a) rest o (length-message k a b talk),
            ◌>>=◌,
            on_conn,
            read_ok k a b talk,
          )
          refl

    mutual
      unfolding handshake_loop

      first_lem :
          (k : ℕ) (a b : HandshakeState) (cs : Option (l.CipherState × l.CipherState))
          (rest o : Bytes) (is_client : Bool) (cfg : Config)
          → Talk k a b
          → handshake_loop l k true cs
              (shaking (open_stream ((wires k a b).1 ++ rest) o) is_client cfg a)
            ≡ ret
                (last k cs a b)
                (shaking (open_stream rest (o ++ (wires k a b).0)) is_client cfg (ends k a b).0)
      first_lem zero a b cs rest o is_client cfg talk = simp append-nil refl
      first_lem (suc k) a b cs rest o is_client cfg talk =
          simp
            (
              handshake_write_lem k a b ((wires k (took b) (wrote a)).0 ++ rest) o is_client cfg
                  talk,
              ◌>>=◌,
              second_lem k (took b) (wrote a) (states a) rest (o ++ prefixed (message a)) is_client
                  cfg (go_on k a b talk),
              append_assoc,
            )
            refl

      second_lem :
          (k : ℕ) (a b : HandshakeState) (cs : Option (l.CipherState × l.CipherState))
          (rest o : Bytes) (is_client : Bool) (cfg : Config)
          → Talk k a b
          → handshake_loop l k false cs
              (shaking (open_stream ((wires k a b).0 ++ rest) o) is_client cfg b)
            ≡ ret
                (last k cs a b)
                (shaking (open_stream rest (o ++ (wires k a b).1)) is_client cfg (ends k a b).1)
      second_lem zero a b cs rest o is_client cfg talk = simp append-nil refl
      second_lem (suc k) a b cs rest o is_client cfg talk =
          simp
            (
              append_assoc (prefixed (message a)) (wires k (took b) (wrote a)).1 rest,
              handshake_read_lem k a b ((wires k (took b) (wrote a)).1 ++ rest) o is_client cfg
                  talk,
              ◌>>=◌,
              first_lem k (took b) (wrote a) (states a) rest o is_client cfg (go_on k a b talk),
            )
            refl

    -- Client and server, with configurations whose new states fit one another and patterns of the same
    -- number of messages, complete the handshake over a stream that loses nothing, whatever follows it:
    -- each message is written behind its length and read by the other, and two cipher states are there,
    -- which become the client's (out, in) and the server's (in, out); both connections are then ready.
    -- The patterns have one message at least.
    pub raw_handshake_agree :
        (cfg cfg' : Config) (a b : HandshakeState)
        → has_key_size l (peer_static cfg) ≡ true
        → has_key_size l (peer_static cfg') ≡ true
        → new_handshake_state cfg ≡ ok a
        → new_handshake_state cfg' ≡ ok b
        → messages cfg ≡ messages cfg'
        → 1 ≤ messages cfg
        → Talk (messages cfg) a b
        → (m n : Bytes) × (ha hb : HandshakeState) × (p : CipherState × CipherState) × ((rest
              o : Bytes)
            → handshake l (client l (open_stream (n ++ rest) o) cfg)
              ≡ ret tt (ready l (open_stream rest (o ++ m)) true cfg (some ha) p.1 p.0 []))
          × ((rest o : Bytes)
              → handshake l (server l (open_stream (m ++ rest) o) cfg')
                ≡ ret tt (ready l (open_stream rest (o ++ n)) false cfg' (some hb) p.0 p.1 []))
    unfolding handshake client server run_handshake begin assign
    raw_handshake_agree cfg cfg' a b key key' made made' same nonempty talk =
        let k = messages cfg in
        let k' : messages cfg' ≡ k = sym same in
        let (p, whole) = last_lem k a b none nonempty talk in
        (
          (wires k a b).0,
          (wires k a b).1,
          (ends k a b).0,
          (ends k a b).1,
          p,
          λ rest o.
              simp (◌>>=◌, ◌>>◌, key, made, begin, whole, first_lem k a b none rest o true cfg talk)
                refl,
          λ rest o.
              simp
                (
                  ◌>>=◌,
                  ◌>>◌,
                  key',
                  made',
                  begin,
                  k',
                  whole,
                  second_lem k a b none rest o false cfg' talk,
                )
                refl,
        )
