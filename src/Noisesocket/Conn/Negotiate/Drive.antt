-- ===== src/Noisesocket/Conn/Negotiate/Drive.antt =====
-- driveFrom at both ends of a handshake.
use noisecat.Base.{
  ℕ, zero, suc, ◌++◌, ◌≡◌, ◌∙◌, ap, refl, arith, Bool, true, false, none, some, [], Bytes,
  append_assoc, append-nil, ret, ◌>>=◌, ◌>>◌, open_stream,
}
use noisecat.Flynn.{NoiseLibrary, IsHandshake}
use noisecat.Noisesocket.Neg.{Base64}
use noisecat.Noisesocket.Conn.{on_conn}
use noisecat.Noisesocket.Conn.Rounds.{
  frame, States, shaking, newer, write_frame_lem, read_frame_lem, assign_lem,
}
use noisecat.Noisesocket.Conn.Handshake.{wires, ends, last}
use noisecat.Noisesocket.Conn.Negotiate.{write_frame_and_record, drive_loop}

module _ (l : NoiseLibrary) (b64 : Base64) (quoted : Bytes → Bytes) (hand : IsHandshake l) where
  open l use {Config, HandshakeState}
  open hand use {Talk, message, wrote, took, states, write_ok, read_ok, length-message, go_on}

  drive_write :
      (k : ℕ) (a b : HandshakeState) (i o neg app : Bytes) (is_client : Bool) (cfg : Config)
      (cs : States l)
      → Talk (suc k) a b
      → drive_loop l b64 quoted
          (suc k)
          true
          none
          (shaking l (open_stream i o) is_client cfg neg app a cs)
        ≡ drive_loop l b64 quoted k false none (
            shaking l
              (open_stream i (o ++ frame [] (message a)))
              is_client
              cfg
              neg
              app
              (wrote a)
              (newer l (states a) cs))
  unfolding drive_loop write_frame_and_record
  drive_write k a b i o neg app is_client cfg cs talk =
      simp
        (
          write_ok k a b talk,
          write_frame_lem [] (message a) i o (omega arith) (length-message k a b talk),
          ◌>>=◌,
          ◌>>◌,
          on_conn,
          assign_lem l (open_stream i (o ++ frame [] (message a))) is_client cfg neg app (wrote a)
              (states a) cs,
        )
        refl

  drive_read :
      (k : ℕ) (a b : HandshakeState) (rest o neg app : Bytes) (is_client : Bool) (cfg : Config)
      (cs : States l)
      → Talk (suc k) a b
      → drive_loop l b64 quoted
          (suc k)
          false
          none
          (shaking l (open_stream (frame [] (message a) ++ rest) o) is_client cfg neg app b cs)
        ≡ drive_loop l b64 quoted k true none
            (shaking l (open_stream rest o) is_client cfg neg app (took b) (newer l (states a) cs))
  unfolding drive_loop
  drive_read k a b rest o neg app is_client cfg cs talk =
      simp
        (
          read_frame_lem [] (message a) rest o (omega arith) (length-message k a b talk),
          ◌>>=◌,
          ◌>>◌,
          on_conn,
          read_ok k a b talk,
          assign_lem l (open_stream rest o) is_client cfg neg app (took b) (states a) cs,
        )
        refl

  -- The message that came with the negotiation data.
  pub drive_pending :
      (k : ℕ) (a b : HandshakeState) (i o neg app : Bytes) (is_client : Bool) (cfg : Config)
      (cs : States l)
      → Talk (suc k) a b
      → drive_loop l b64 quoted
          (suc k)
          false
          (some (message a))
          (shaking l (open_stream i o) is_client cfg neg app b cs)
        ≡ drive_loop l b64 quoted k true none
            (shaking l (open_stream i o) is_client cfg neg app (took b) (newer l (states a) cs))
  unfolding drive_loop
  drive_pending k a b i o neg app is_client cfg cs talk =
      simp
        (
          ◌>>=◌,
          ◌>>◌,
          read_ok k a b talk,
          assign_lem l (open_stream i o) is_client cfg neg app (took b) (states a) cs,
        )
        refl

  loop_zero :
      (turn : Bool) (h : HandshakeState) (cs : States l) (rest o neg app : Bytes) (is_client : Bool)
      (cfg : Config)
      → drive_loop l b64 quoted zero turn none
          (shaking l (open_stream rest o) is_client cfg neg app h cs)
        ≡ ret tt (shaking l (open_stream rest (o ++ [])) is_client cfg neg app h cs)
  unfolding drive_loop
  loop_zero turn h cs rest o neg app is_client cfg = simp append-nil refl

  mutual
    pub drive_first :
        (k : ℕ) (a b : HandshakeState) (cs : States l) (rest o neg app : Bytes) (is_client : Bool)
        (cfg : Config)
        → Talk k a b
        → drive_loop l b64 quoted k true none
            (shaking l (open_stream ((wires l hand k a b).1 ++ rest) o) is_client cfg neg app a cs)
          ≡ ret tt (
              shaking l
                (open_stream rest (o ++ (wires l hand k a b).0))
                is_client
                cfg
                neg
                app
                (ends l hand k a b).0
                (last l hand k cs a b))
    drive_first zero a b cs rest o neg app is_client cfg talk =
        loop_zero true a cs rest o neg app is_client cfg
    drive_first (suc k) a b cs rest o neg app is_client cfg talk =
        drive_write k a b ((wires l hand k (took b) (wrote a)).0 ++ rest) o neg app is_client cfg cs
          talk
        ∙ drive_second k (took b) (wrote a) (newer l (states a) cs) rest (o ++ frame [] (message a))
            neg app is_client cfg (go_on k a b talk)
        ∙ ap
            (λ w. ret tt (
              shaking l (open_stream rest w) is_client cfg neg app (ends l hand (suc k) a b).0
                (last l hand (suc k) cs a b)))
            (append_assoc o (frame [] (message a)) (wires l hand k (took b) (wrote a)).1)

    pub drive_second :
        (k : ℕ) (a b : HandshakeState) (cs : States l) (rest o neg app : Bytes) (is_client : Bool)
        (cfg : Config)
        → Talk k a b
        → drive_loop l b64 quoted k false none
            (shaking l (open_stream ((wires l hand k a b).0 ++ rest) o) is_client cfg neg app b cs)
          ≡ ret tt (
              shaking l
                (open_stream rest (o ++ (wires l hand k a b).1))
                is_client
                cfg
                neg
                app
                (ends l hand k a b).1
                (last l hand k cs a b))
    drive_second zero a b cs rest o neg app is_client cfg talk =
        loop_zero false b cs rest o neg app is_client cfg
    drive_second (suc k) a b cs rest o neg app is_client cfg talk =
        ap
          (λ w.
            drive_loop l b64 quoted (suc k) false none
              (shaking l (open_stream w o) is_client cfg neg app b cs))
          (append_assoc (frame [] (message a)) (wires l hand k (took b) (wrote a)).1 rest)
        ∙ drive_read k a b ((wires l hand k (took b) (wrote a)).1 ++ rest) o neg app is_client cfg
            cs talk
        ∙ drive_first k (took b) (wrote a) (newer l (states a) cs) rest o neg app is_client cfg
            (go_on k a b talk)
