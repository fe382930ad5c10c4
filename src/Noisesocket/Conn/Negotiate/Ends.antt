-- ===== src/Noisesocket/Conn/Negotiate/Ends.antt =====
-- The last round of the negotiation at each end, behind any transcript: the proposal is supported.
use noisecat.Base.{
  ◌-◌, ◌%◌, ◌==◌, not, if◌then◌else◌, ℕ, suc, ◌≤◌, ◌≢◌, ◌++◌, ◌≡◌, ◌∙◌, ap, refl, arith, Bool, true,
  false, none, some, [], ◌∷◌, Bytes, length, append_assoc, ok, ret, ◌>>=◌, ◌>>◌, open_stream,
}
use noisecat.Flynn.{NoiseLibrary, IsHandshake}
use noisecat.Noisesocket.Framing.{
  max_message_len, build_prologue, frame_bytes, read_handshake_frame,
}
use noisecat.Noisesocket.Neg.{Base64, encode_proposal, supports}
use noisecat.Noisesocket.Neg.RoundTrip.{IsPlain, IsCodec, parse_neg-encode_proposal}
use noisecat.Noisesocket.Conn.{Conn, on_conn}
use noisecat.Noisesocket.Conn.Rounds.{frame, shaking, newer, write_frame_lem, read_frame_lem}
use noisecat.Noisesocket.Conn.Handshake.{done, wires, ends, last}
use noisecat.Noisesocket.Conn.Negotiate.{
  Negotiation, pending_of, new_hs, prologue_with, first_message, drive_from, write_frame_and_record,
  initiator_loop, responder_accept, responder_loop,
}
use noisecat.Noisesocket.Conn.Negotiate.Drive.{drive_pending, drive_first}

module _ (l : NoiseLibrary) (b64 : Base64) (quoted : Bytes → Bytes) where
  pending_of-some : (m : Bytes) → m ≢ [] → pending_of l b64 quoted m ≡ some m
  pending_of-some [] h = absurd (h refl)
  pending_of-some (b ∷ m) h = refl

  open l use {Config, HandshakeState, messages, with_prologue, new_handshake_state}

  -- What NewHandshakeState is given behind a transcript.
  abbrev pub prepared_after : Bytes → Bytes → Bytes → Config → Config
  prepared_after neg app transcript cfg = with_prologue (build_prologue neg app ++ transcript) cfg

  pub new_hs_lem :
      (cfg : Config) (c : Conn l) (neg transcript : Bytes) (h : HandshakeState)
      → new_handshake_state (prepared_after neg c.app_prologue transcript cfg) ≡ ok h
      → new_hs l b64 quoted cfg (prologue_with l b64 quoted c neg transcript) ≡ ok h
  unfolding new_hs prologue_with
  new_hs_lem cfg c neg transcript h made = simp made refl

  -- A connection that has not sent anything.
  abbrev pub fresh : Bool → Bytes → Bytes → Config → Bytes → Conn l
  fresh is_client i o cfg app = record {
    conn = open_stream i o;
    is_client = is_client;
    cfg = cfg;
    initial_neg_data = [];
    app_prologue = app;
    hs = none;
    handshake_done = false;
    cs_in = none;
    cs_out = none;
    input_buffer = [];
  }

  pub record_lem :
      (neg msg i o app : Bytes) (is_client : Bool) (cfg : Config)
      → length neg ≤ max_message_len
      → length msg ≤ max_message_len
      → write_frame_and_record l b64 quoted neg msg (fresh is_client i o cfg app)
        ≡ ret (frame_bytes neg msg) (fresh is_client i (o ++ frame neg msg) cfg app)
  unfolding write_frame_and_record
  record_lem neg msg i o app is_client cfg hn hm =
      simp (write_frame_lem neg msg i o hn hm, on_conn, ◌>>=◌, ◌>>◌) refl

  pub frame_lem :
      (neg msg rest o app : Bytes) (is_client : Bool) (cfg : Config)
      → length neg ≤ max_message_len
      → length msg ≤ max_message_len
      → on_conn l read_handshake_frame (fresh is_client (frame neg msg ++ rest) o cfg app)
        ≡ ret (neg, msg) (fresh is_client rest o cfg app)
  frame_lem neg msg rest o app is_client cfg hn hm =
      simp (read_frame_lem neg msg rest o hn hm, on_conn) refl

  module _ (hand : IsHandshake l) where
    open hand use {Talk, message, wrote, took, states, write_ok, read_ok, length-message, go_on}

    -- driveFrom where the message of its first turn, a read, has come with the negotiation data.
    pub drive_from_lem :
        (k : ℕ) (a b : HandshakeState) (rest o app : Bytes) (is_client initiator : Bool) (start : ℕ)
        (total : ℕ) (no_cfg : Config)
        → Talk (suc k) a b
        → message a ≢ []
        → total - start ≡ suc k
        → (if start % 2 == 0 then initiator else not initiator) ≡ false
        → drive_from l b64 quoted b total initiator start
            (pending_of l b64 quoted (message a))
            (fresh is_client ((wires l hand k (took b) (wrote a)).1 ++ rest) o no_cfg app)
          ≡ ret tt (
              done l (
                shaking l
                  (open_stream rest (o ++ (wires l hand k (took b) (wrote a)).0))
                  is_client
                  no_cfg
                  []
                  app
                  (ends l hand k (took b) (wrote a)).0
                  (last l hand k (newer l (states a) none) (took b) (wrote a))))
    unfolding drive_from
    drive_from_lem k a b rest o app is_client initiator start total no_cfg talk some_bytes count
          turn =
        simp
          (
            pending_of-some (message a) some_bytes,
            count,
            turn,
            ◌>>=◌,
            ◌>>◌,
            drive_pending l b64 quoted hand k a b ((wires l hand k (took b) (wrote a)).1 ++ rest) o
                [] app is_client no_cfg none talk,
            drive_first l b64 quoted hand k (took b) (wrote a) (newer l (states a) none) rest o []
                app is_client no_cfg (go_on k a b talk),
          )
          refl

    pub first_message_lem :
        (k : ℕ) (a b : HandshakeState)
        → Talk (suc k) a b
        → states a ≡ none
        → first_message l b64 quoted a ≡ ok ((message a, none), wrote a)
    unfolding first_message
    first_message_lem k a b talk not_yet = simp (first_message, write_ok k a b talk, not_yet) refl

    -- What each end sends while `k + 2` messages are to go, the proposal in the first frame.
    abbrev pub initiator_wire : Bytes → ℕ → HandshakeState → HandshakeState → Bytes
    initiator_wire neg k a b = frame neg (message a) ++ (wires l hand (suc k) (took b) (wrote a)).1

    abbrev pub responder_wire : ℕ → HandshakeState → HandshakeState → Bytes
    responder_wire k a b = (wires l hand (suc k) (took b) (wrote a)).0

    module _ (c : ℕ) (name app_data : Bytes)
        (fits : length (encode_proposal b64 (c ∷ name) app_data) ≤ max_message_len) where
      abbrev pub proposal : Bytes
      proposal = encode_proposal b64 (c ∷ name) app_data

      module _ (k : ℕ) (a b : HandshakeState) (talk : Talk (suc (suc k)) a b) where
        pub initiator_lem :
            (n : Negotiation l b64 quoted) (f : ℕ) (transcript : Bytes) (cfg no_cfg : Config)
            (rest o app : Bytes)
            → n.app_data ≡ app_data
            → n.build_config (c ∷ name) true ≡ ok cfg
            → new_handshake_state (prepared_after proposal app transcript cfg) ≡ ok a
            → messages cfg ≡ suc (suc k)
            → states a ≡ none
            → message (took b) ≢ []
            → initiator_loop l b64 quoted n
                (suc f)
                (c ∷ name)
                transcript
                (fresh true (responder_wire k a b ++ rest) o no_cfg app)
              ≡ ret tt (
                  done l (
                    shaking l
                      (open_stream rest (o ++ initiator_wire proposal k a b))
                      true
                      no_cfg
                      []
                      app
                      (ends l hand (suc k) (took b) (wrote a)).1
                      (last l hand (suc k) none (took b) (wrote a))))
        unfolding initiator_loop
        initiator_lem n f transcript cfg no_cfg rest o app carried built made count not_yet
              some_bytes =
            let next : Talk (suc k) (took b) (wrote a) = go_on (suc k) a b talk in
            let left : messages cfg - 1 ≡ suc k = omega (arith, count) in
            let later = (wires l hand k (took (wrote a)) (wrote (took b))).1 ++ rest in
            let i = frame [] (message (took b)) ++ later in
            ap
              (λ w.
                initiator_loop l b64 quoted n (suc f) (c ∷ name) transcript
                  (fresh true w o no_cfg app))
              (append_assoc (frame [] (message (took b)))
                (wires l hand k (took (wrote a)) (wrote (took b))).1 rest)
            ∙ simp
                (
                  carried,
                  built,
                  new_hs_lem cfg (fresh true i o no_cfg app) proposal transcript a made,
                  first_message_lem (suc k) a b talk not_yet,
                  ◌>>=◌,
                  ◌>>◌,
                  record_lem proposal (message a) i o app true no_cfg fits
                      (length-message (suc k) a b talk),
                  frame_lem [] (message (took b)) later (o ++ frame proposal (message a)) app true
                      no_cfg (omega arith) (length-message k (took b) (wrote a) next),
                  drive_from_lem k (took b) (wrote a) rest (o ++ frame proposal (message a)) app
                      true true 1 (messages cfg) no_cfg next some_bytes left refl,
                  append_assoc o (frame proposal (message a))
                      (wires l hand k (took (wrote a)) (wrote (took b))).0,
                )
                refl

        pub responder_lem :
            (n : Negotiation l b64 quoted) (f : ℕ) (transcript : Bytes) (cfg no_cfg : Config)
            (rest o app : Bytes)
            → IsCodec b64
            → IsPlain (c ∷ name)
            → supports (c ∷ name) n.supported ≡ true
            → n.build_config (c ∷ name) false ≡ ok cfg
            → new_handshake_state (prepared_after proposal app transcript cfg) ≡ ok b
            → messages cfg ≡ suc (suc k)
            → message a ≢ []
            → responder_loop l b64 quoted n
                (suc f)
                transcript
                (fresh false (initiator_wire proposal k a b ++ rest) o no_cfg app)
              ≡ ret tt (
                  done l (
                    shaking l
                      (open_stream rest (o ++ responder_wire k a b))
                      false
                      no_cfg
                      []
                      app
                      (ends l hand (suc k) (took b) (wrote a)).0
                      (last l hand (suc k) (newer l (states a) none) (took b) (wrote a))))
        unfolding responder_loop responder_accept
        responder_lem n f transcript cfg no_cfg rest o app codec plain supported built made count
              some_bytes =
            let whole : messages cfg - 0 ≡ suc (suc k) = omega (arith, count) in
            let later = (wires l hand (suc k) (took b) (wrote a)).1 ++ rest in
            ap (λ w. responder_loop l b64 quoted n (suc f) transcript (fresh false w o no_cfg app))
              (append_assoc (frame proposal (message a)) (wires l hand (suc k) (took b) (wrote a)).1
                rest)
            ∙ simp
                (
                  frame_lem proposal (message a) later o app false no_cfg fits
                      (length-message (suc k) a b talk),
                  ◌>>=◌,
                  ◌>>◌,
                  parse_neg-encode_proposal b64 codec c name app_data plain,
                  supported,
                  built,
                  new_hs_lem cfg (fresh false later o no_cfg app) proposal transcript b made,
                  drive_from_lem (suc k) a b rest o app false false 0 (messages cfg) no_cfg talk
                      some_bytes whole refl,
                )
                refl
