-- ===== src/Noisesocket/Conn/Handshake.antt =====
-- The two ends of the handshake of conn.go against one another, without a negotiation.
use noisecat.Base.{
  ◌∙◌, Outcome, Stream, ℕ, zero, suc, ◌≤◌, ◌++◌, ◌≡◌, refl, sym, Bool, true, false, none, [], Bytes,
  length, append_assoc, some, ap, arith, append-nil, ok, ret, ◌>>=◌, ◌>>◌, open_stream,
}
use noisecat.Flynn.{NoiseLibrary, IsHandshake}
use noisecat.Noisesocket.Framing.{max_message_len, build_prologue}
use noisecat.Noisesocket.Conn.{
  Conn, new_conn, client, server, handshake_loop, run_handshake, handshake,
}
use noisecat.Noisesocket.Conn.Rounds.{frame, States, shaking, newer, write_round, read_round}

module _ (l : NoiseLibrary) where
  open l use {Config, HandshakeState, CipherState, messages, with_prologue, new_handshake_state}

  -- What NewHandshakeState is given.
  abbrev pub prepared : Bytes → Bytes → Config → Config
  prepared neg app cfg = with_prologue (build_prologue neg app) cfg

  abbrev pub done : Conn l → Conn l
  done c = record c { handshake_done = true }

  -- The end of a handshake whose cipher states are known.
  pub done_with :
      {o : Outcome (Conn l) (Unit {0})} {s : Stream} {is_client : Bool} {cfg : Config}
      {neg app : Bytes} {h : HandshakeState} {cs : States l} {p : CipherState × CipherState}
      → cs ≡ some p
      → o ≡ ret tt (done (shaking l s is_client cfg neg app h cs))
      → o ≡ ret tt (done (shaking l s is_client cfg neg app h (some p)))
  done_with {o} {s} {is_client} {cfg} {neg} {app} {h} same e =
      e ∙ ap (λ cs. ret tt (done (shaking l s is_client cfg neg app h cs))) same

  module _ (hand : IsHandshake l) where
    open hand use {
      Talk, message, wrote, took, states, write_ok, read_ok, length-message, split, go_on,
    }

    -- While `k` messages are to go, the first state's turn: what each of the two sends, their states
    -- at the end, and the cipher states that were left.
    abbrev pub wires : ℕ → HandshakeState → HandshakeState → Bytes × Bytes
    wires zero a b = ([], [])
    wires (suc k) a b = let r = wires k (took b) (wrote a) in (frame [] (message a) ++ r.1, r.0)

    abbrev pub ends : ℕ → HandshakeState → HandshakeState → HandshakeState × HandshakeState
    ends zero a b = (a, b)
    ends (suc k) a b = let r = ends k (took b) (wrote a) in (r.1, r.0)

    abbrev pub last : ℕ → States l → HandshakeState → HandshakeState → States l
    last zero cs a b = cs
    last (suc k) cs a b = last k (newer l (states a) cs) (took b) (wrote a)

    -- Behind the last message the cipher states are there.
    pub last_lem :
        (k : ℕ) (a b : HandshakeState) (cs : States l)
        → 1 ≤ k
        → Talk k a b
        → (p : CipherState × CipherState) × (last k cs a b ≡ some p)
    last_lem zero a b cs some_left talk = absurd (omega arith)
    last_lem (suc zero) a b cs some_left talk =
        let (p, e) = split a b talk in (p, ap (λ x. newer l x cs) e)
    last_lem (suc (suc k)) a b cs some_left talk =
        last_lem (suc k) (took b) (wrote a) (newer l (states a) cs) (omega arith)
          (go_on (suc k) a b talk)

    mutual
      unfolding handshake_loop

      first_lem :
          (k : ℕ) (a b : HandshakeState) (cs : States l) (rest o neg app : Bytes) (is_client : Bool)
          (cfg : Config)
          → length neg ≤ max_message_len
          → Talk k a b
          → handshake_loop l k true false
              (shaking l (open_stream ((wires k a b).1 ++ rest) o) is_client cfg neg app a cs)
            ≡ ret tt (
                shaking l
                  (open_stream rest (o ++ (wires k a b).0))
                  is_client
                  cfg
                  neg
                  app
                  (ends k a b).0
                  (last k cs a b))
      first_lem zero a b cs rest o neg app is_client cfg fits talk = simp append-nil refl
      first_lem (suc k) a b cs rest o neg app is_client cfg fits talk =
          simp
            (
              write_round l hand k a b ((wires k (took b) (wrote a)).0 ++ rest) o neg app is_client
                  false cfg cs fits talk,
              ◌>>=◌,
              ◌>>◌,
              second_lem k (took b) (wrote a) (newer l (states a) cs) rest
                  (o ++ frame [] (message a)) neg app is_client cfg fits (go_on k a b talk),
              append_assoc,
            )
            refl

      second_lem :
          (k : ℕ) (a b : HandshakeState) (cs : States l) (rest o neg app : Bytes) (is_client : Bool)
          (cfg : Config)
          → length neg ≤ max_message_len
          → Talk k a b
          → handshake_loop l k false false
              (shaking l (open_stream ((wires k a b).0 ++ rest) o) is_client cfg neg app b cs)
            ≡ ret tt (
                shaking l
                  (open_stream rest (o ++ (wires k a b).1))
                  is_client
                  cfg
                  neg
                  app
                  (ends k a b).1
                  (last k cs a b))
      second_lem zero a b cs rest o neg app is_client cfg fits talk = simp append-nil refl
      second_lem (suc k) a b cs rest o neg app is_client cfg fits talk =
          simp
            (
              append_assoc (frame [] (message a)) (wires k (took b) (wrote a)).1 rest,
              read_round l hand k a b ((wires k (took b) (wrote a)).1 ++ rest) o neg app is_client
                  false cfg cs fits talk,
              ◌>>=◌,
              ◌>>◌,
              first_lem k (took b) (wrote a) (newer l (states a) cs) rest o neg app is_client cfg
                  fits (go_on k a b talk),
            )
            refl

    -- What the client sends, with its negotiation data in the first frame.
    abbrev pub opening : Bytes → ℕ → HandshakeState → HandshakeState → Bytes
    opening neg zero a b = []
    opening neg (suc k) a b = frame neg (message a) ++ (wires k (took b) (wrote a)).1

    client_loop :
        (k : ℕ) (a b : HandshakeState) (rest o neg app : Bytes) (cfg : Config)
        → length neg ≤ max_message_len
        → Talk k a b
        → handshake_loop l k true true
            (shaking l (open_stream ((wires k a b).1 ++ rest) o) true cfg neg app a none)
          ≡ ret tt (
              shaking l
                (open_stream rest (o ++ opening neg k a b))
                true
                cfg
                neg
                app
                (ends k a b).0
                (last k none a b))
    unfolding handshake_loop
    client_loop zero a b rest o neg app cfg fits talk = simp append-nil refl
    client_loop (suc k) a b rest o neg app cfg fits talk =
        simp
          (
            write_round l hand k a b ((wires k (took b) (wrote a)).0 ++ rest) o neg app true true
                cfg none fits talk,
            ◌>>=◌,
            ◌>>◌,
            second_lem k (took b) (wrote a) (newer l (states a) none) rest
                (o ++ frame neg (message a)) neg app true cfg fits (go_on k a b talk),
            append_assoc,
          )
          refl

    server_loop :
        (k : ℕ) (a b : HandshakeState) (rest o neg app : Bytes) (cfg : Config)
        → length neg ≤ max_message_len
        → Talk k a b
        → handshake_loop l k false true
            (shaking l (open_stream (opening neg k a b ++ rest) o) false cfg neg app b none)
          ≡ ret tt (
              shaking l
                (open_stream rest (o ++ (wires k a b).1))
                false
                cfg
                neg
                app
                (ends k a b).1
                (last k none a b))
    unfolding handshake_loop
    server_loop zero a b rest o neg app cfg fits talk = simp append-nil refl
    server_loop (suc k) a b rest o neg app cfg fits talk =
        simp
          (
            append_assoc (frame neg (message a)) (wires k (took b) (wrote a)).1 rest,
            read_round l hand k a b ((wires k (took b) (wrote a)).1 ++ rest) o neg app false true
                cfg none fits talk,
            ◌>>=◌,
            ◌>>◌,
            first_lem k (took b) (wrote a) (newer l (states a) none) rest o neg app false cfg fits
                (go_on k a b talk),
          )
          refl

    -- Client and server with the same negotiation data, and with configurations whose new states,
    -- under the prologues of the two, fit one another and patterns of the same number of messages,
    -- complete the handshake over a stream that loses nothing, whatever follows it: the client's first
    -- frame has the negotiation data, and two cipher states are there, which become the client's (out,
    -- in) and the server's (in, out). The patterns have one message at least.
    pub handshake_both_ends :
        (cfg cfg' : Config) (neg app app' : Bytes) (a b : HandshakeState)
        → length neg ≤ max_message_len
        → new_handshake_state (prepared neg app cfg) ≡ ok a
        → new_handshake_state (prepared neg app' cfg') ≡ ok b
        → messages (prepared neg app cfg) ≡ messages (prepared neg app' cfg')
        → 1 ≤ messages (prepared neg app cfg)
        → Talk (messages (prepared neg app cfg)) a b
        → (m n : Bytes) × (ha hb : HandshakeState) × (p : CipherState × CipherState) × ((rest
              o : Bytes)
            → handshake l (client l (open_stream (n ++ rest) o) cfg neg app)
              ≡ ret tt (done (shaking l (open_stream rest (o ++ m)) true cfg neg app ha (some p))))
          × ((rest o : Bytes)
              → handshake l (server l (open_stream (m ++ rest) o) cfg' neg app')
                ≡ ret tt
                    (done (shaking l (open_stream rest (o ++ n)) false cfg' neg app' hb (some p))))
    unfolding handshake run_handshake client server new_conn
    handshake_both_ends cfg cfg' neg app app' a b fits made made' same nonempty talk =
        let k = messages (prepared neg app cfg) in
        let k' : messages (prepared neg app' cfg') ≡ k = sym same in
        let (p, whole) = last_lem k a b none nonempty talk in
        (
          opening neg k a b,
          (wires k a b).1,
          (ends k a b).0,
          (ends k a b).1,
          p,
          λ rest o.
              simp (◌>>=◌, ◌>>◌, made, whole, client_loop k a b rest o neg app cfg fits talk) refl,
          λ rest o.
              simp (◌>>=◌, ◌>>◌, made', k', whole, server_loop k a b rest o neg app' cfg' fits talk)
                refl,
        )
