-- ===== src/Noisesocket/Conn/Rounds.antt =====
-- One message of the handshake of conn.go, from the end that writes it and the end that reads it.
use noisecat.Base.{
  ℕ, suc, ◌≤◌, ◌++◌, ◌≡◌, refl, arith, Bool, true, false, not, ◌&&◌, Option, none, some, [], Bytes,
  length, equal_refl, le→ltb, if◌then◌else◌, append_assoc, ret, ◌>>=◌, ◌>>◌, Stream, open_stream,
  write_all,
}
use noisecat.Flynn.{NoiseLibrary, IsHandshake}
use noisecat.Flynn.Wire.{prefixed}
use noisecat.Noisesocket.Framing.{max_message_len, write_handshake_frame, read_handshake_frame}
use noisecat.Noisesocket.Framing.Frames.{read_length_prefixed_lem, frame_bytes_lem}
use noisecat.Noisesocket.Conn.{Conn, on_conn, assign_cipher_states, handshake_write, handshake_read}

abbrev pub frame : Bytes → Bytes → Bytes
frame neg msg = prefixed neg ++ prefixed msg

pub write_frame_lem :
    (neg msg i o : Bytes)
    → length neg ≤ max_message_len
    → length msg ≤ max_message_len
    → write_handshake_frame neg msg (open_stream i o) ≡ ret tt (open_stream i (o ++ frame neg msg))
unfolding write_handshake_frame write_all
write_frame_lem neg msg i o hn hm =
    simp
      (
        ◌>>=◌,
        ◌>>◌,
        le→ltb max_message_len (length neg) hn,
        le→ltb max_message_len (length msg) hm,
        frame_bytes_lem neg msg,
      )
      refl

pub read_frame_lem :
    (neg msg rest o : Bytes)
    → length neg ≤ max_message_len
    → length msg ≤ max_message_len
    → read_handshake_frame (open_stream (frame neg msg ++ rest) o)
      ≡ ret (neg, msg) (open_stream rest o)
unfolding read_handshake_frame
read_frame_lem neg msg rest o hn hm =
    simp
      (
        append_assoc (prefixed neg) (prefixed msg) rest,
        read_length_prefixed_lem neg (prefixed msg ++ rest) o hn,
        ◌>>=◌,
        read_length_prefixed_lem msg rest o hm,
      )
      refl

module _ (l : NoiseLibrary) where
  open l use {Config, HandshakeState, CipherState, messages, with_prologue, new_handshake_state}

  abbrev pub States : Type 0
  States = Option (l.CipherState × l.CipherState)

  -- The cipher states by role.
  abbrev pub one_way : Bool → States → Option l.CipherState
  one_way forth none = none
  one_way true (some p) = some p.0
  one_way false (some p) = some p.1

  -- A connection in the middle of its handshake, with the cipher states so far.
  abbrev pub shaking : Stream → Bool → Config → Bytes → Bytes → HandshakeState → States → Conn l
  shaking s is_client cfg neg app h cs = record {
    conn = s;
    is_client = is_client;
    cfg = cfg;
    initial_neg_data = neg;
    app_prologue = app;
    hs = some h;
    handshake_done = false;
    cs_in = one_way (not is_client) cs;
    cs_out = one_way is_client cs;
    input_buffer = [];
  }

  abbrev pub newer : States → States → States
  newer none cs = cs
  newer (some p) cs = some p

  pub assign_lem :
      (s : Stream) (is_client : Bool) (cfg : Config) (neg app : Bytes) (h : HandshakeState)
      (new cs : States)
      → assign_cipher_states l new (shaking s is_client cfg neg app h cs)
        ≡ shaking s is_client cfg neg app h (newer new cs)
  unfolding assign_cipher_states
  assign_lem s is_client cfg neg app h none cs = refl
  assign_lem s true cfg neg app h (some p) cs = refl
  assign_lem s false cfg neg app h (some p) cs = refl

  module _ (hand : IsHandshake l) where
    open hand use {Talk, message, wrote, took, states, write_ok, read_ok, length-message, go_on}

    pub write_round :
        (k : ℕ) (a b : HandshakeState) (i o neg app : Bytes) (is_client is_first : Bool)
        (cfg : Config) (cs : States)
        → length neg ≤ max_message_len
        → Talk (suc k) a b
        → handshake_write l is_first (shaking (open_stream i o) is_client cfg neg app a cs)
          ≡ ret tt (
              shaking
                (open_stream i (o ++ frame (if is_first && is_client then neg else []) (message a)))
                is_client
                cfg
                neg
                app
                (wrote a)
                (newer (states a) cs))
    unfolding handshake_write
    write_round k a b i o neg app true true cfg cs fits talk =
        simp
          (
            write_ok k a b talk,
            write_frame_lem neg (message a) i o fits (length-message k a b talk),
            ◌>>=◌,
            ◌>>◌,
            on_conn,
            assign_lem (open_stream i (o ++ frame neg (message a))) true cfg neg app (wrote a)
                (states a) cs,
          )
          refl
    write_round k a b i o neg app false true cfg cs fits talk =
        simp
          (
            write_ok k a b talk,
            write_frame_lem [] (message a) i o (omega arith) (length-message k a b talk),
            ◌>>=◌,
            ◌>>◌,
            on_conn,
            assign_lem (open_stream i (o ++ frame [] (message a))) false cfg neg app (wrote a)
                (states a) cs,
          )
          refl
    write_round k a b i o neg app true false cfg cs fits talk =
        simp
          (
            write_ok k a b talk,
            write_frame_lem [] (message a) i o (omega arith) (length-message k a b talk),
            ◌>>=◌,
            ◌>>◌,
            on_conn,
            assign_lem (open_stream i (o ++ frame [] (message a))) true cfg neg app (wrote a)
                (states a) cs,
          )
          refl
    write_round k a b i o neg app false false cfg cs fits talk =
        simp
          (
            write_ok k a b talk,
            write_frame_lem [] (message a) i o (omega arith) (length-message k a b talk),
            ◌>>=◌,
            ◌>>◌,
            on_conn,
            assign_lem (open_stream i (o ++ frame [] (message a))) false cfg neg app (wrote a)
                (states a) cs,
          )
          refl

    pub read_round :
        (k : ℕ) (a b : HandshakeState) (rest o neg app : Bytes) (is_client is_first : Bool)
        (cfg : Config) (cs : States)
        → length neg ≤ max_message_len
        → Talk (suc k) a b
        → handshake_read l is_first (
            shaking
              (open_stream
                (frame (if is_first && not is_client then neg else []) (message a) ++ rest)
                o)
              is_client
              cfg
              neg
              app
              b
              cs)
          ≡ ret tt
              (shaking (open_stream rest o) is_client cfg neg app (took b) (newer (states a) cs))
    unfolding handshake_read
    read_round k a b rest o neg app true true cfg cs fits talk =
        simp
          (
            read_frame_lem [] (message a) rest o (omega arith) (length-message k a b talk),
            ◌>>=◌,
            ◌>>◌,
            on_conn,
            equal_refl neg,
            read_ok k a b talk,
            assign_lem (open_stream rest o) true cfg neg app (took b) (states a) cs,
          )
          refl
    read_round k a b rest o neg app false true cfg cs fits talk =
        simp
          (
            read_frame_lem neg (message a) rest o fits (length-message k a b talk),
            ◌>>=◌,
            ◌>>◌,
            on_conn,
            equal_refl neg,
            read_ok k a b talk,
            assign_lem (open_stream rest o) false cfg neg app (took b) (states a) cs,
          )
          refl
    read_round k a b rest o neg app true false cfg cs fits talk =
        simp
          (
            read_frame_lem [] (message a) rest o (omega arith) (length-message k a b talk),
            ◌>>=◌,
            ◌>>◌,
            on_conn,
            equal_refl neg,
            read_ok k a b talk,
            assign_lem (open_stream rest o) true cfg neg app (took b) (states a) cs,
          )
          refl
    read_round k a b rest o neg app false false cfg cs fits talk =
        simp
          (
            read_frame_lem [] (message a) rest o (omega arith) (length-message k a b talk),
            ◌>>=◌,
            ◌>>◌,
            on_conn,
            equal_refl neg,
            read_ok k a b talk,
            assign_lem (open_stream rest o) false cfg neg app (took b) (states a) cs,
          )
          refl
