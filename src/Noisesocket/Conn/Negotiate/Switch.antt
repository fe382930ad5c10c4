-- ===== src/Noisesocket/Conn/Negotiate/Switch.antt =====
-- A round of the negotiation at each end in which the responder becomes the initiator.
use noisecat.Base.{
  ℕ, suc, ◌-◌, ◌≤◌, ◌≢◌, ◌++◌, ◌≡◌, ◌∙◌, ap, refl, arith, true, false, none, [], ◌∷◌, Bytes, List,
  length, append_assoc, ok, ret, ◌>>=◌, ◌>>◌, open_stream, Bool,
}
use noisecat.Flynn.{NoiseLibrary, IsHandshake}
use noisecat.Noisesocket.Framing.{max_message_len, frame_bytes}
use noisecat.Noisesocket.Neg.{
  Base64, act_switch, encode_proposal, encode_response, supports, allowed_protocol,
}
use noisecat.Noisesocket.Neg.RoundTrip.{
  IsPlain, IsCodec, parse_neg-encode_proposal, parse_neg-encode_response,
}
use noisecat.Noisesocket.Conn.Rounds.{frame, shaking, newer}
use noisecat.Noisesocket.Conn.Handshake.{done, wires, ends, last}
use noisecat.Noisesocket.Conn.Negotiate.{
  Negotiation, policy_switch, initiator_loop, initiator_react, initiator_switch, responder_loop,
  apply_policy, responder_switch, drive_from,
}
use noisecat.Noisesocket.Conn.Negotiate.Drive.{drive_second}
use noisecat.Noisesocket.Conn.Negotiate.Ends.{
  prepared_after, new_hs_lem, fresh, record_lem, frame_lem, initiator_wire, responder_wire,
  drive_from_lem, first_message_lem,
}
use noisecat.Noisesocket.Conn.Negotiate.Retry.{first_lem, response_starts}

module _ (l : NoiseLibrary) (b64 : Base64) (quoted : Bytes → Bytes) (hand : IsHandshake l) where
  open l use {Config, HandshakeState, messages, new_handshake_state, write_message}
  open hand use {Talk, message, wrote, took, states, length-message}

  -- driveFrom behind a first message of one's own.
  drive_behind :
      (k : ℕ) (a b : HandshakeState) (rest o app : Bytes) (is_client : Bool) (total : ℕ)
      (no_cfg : Config)
      → Talk (suc k) (took b) (wrote a)
      → total - 1 ≡ suc k
      → drive_from l b64 quoted (wrote a) total true 1 none (
          fresh l b64 quoted is_client
            (responder_wire l b64 quoted hand k a b ++ rest)
            o
            no_cfg
            app)
        ≡ ret tt (
            done l (
              shaking l
                (open_stream rest (o ++ (wires l hand (suc k) (took b) (wrote a)).1))
                is_client
                no_cfg
                []
                app
                (ends l hand (suc k) (took b) (wrote a)).1
                (last l hand (suc k) none (took b) (wrote a))))
  unfolding drive_from
  drive_behind k a b rest o app is_client total no_cfg talk count =
      simp
        (
          count,
          ◌>>=◌,
          ◌>>◌,
          drive_second l b64 quoted hand (suc k) (took b) (wrote a) none rest o [] app is_client
              no_cfg talk,
        )
        refl

  -- The proposal `c ∷ name` with the message `msg`, and the switch to `d ∷ other` behind a transcript.
  module _ (c d : ℕ) (name other app_data msg : Bytes)
      (fits : length (encode_proposal b64 (c ∷ name) app_data) ≤ max_message_len)
      (switch_fits : length (encode_response act_switch (d ∷ other) []) ≤ max_message_len)
      (msg_fits : length msg ≤ max_message_len) (k : ℕ) (a b : HandshakeState)
      (talk : Talk (suc (suc k)) a b) where
    abbrev pub refused : Bytes
    refused = encode_proposal b64 (c ∷ name) app_data

    abbrev pub switched_to : Bytes
    switched_to = encode_response act_switch (d ∷ other) []

    pub initiator_switched :
        (n : Negotiation l b64 quoted) (f : ℕ) (transcript : Bytes) (cfg cfg' no_cfg : Config)
        (h h' : HandshakeState) (rest o app : Bytes)
        → IsCodec b64
        → IsPlain (d ∷ other)
        → n.app_data ≡ app_data
        → n.build_config (c ∷ name) true ≡ ok cfg
        → new_handshake_state (prepared_after l b64 quoted refused app transcript cfg) ≡ ok h
        → write_message h ≡ ret (msg, none) h'
        → allowed_protocol (d ∷ other) n.proposed n.fallback ≡ true
        → n.build_config (d ∷ other) false ≡ ok cfg'
        → new_handshake_state (
            prepared_after l b64 quoted switched_to app
              (transcript ++ frame_bytes refused msg)
              cfg')
          ≡ ok b
        → messages cfg' ≡ suc (suc k)
        → message a ≢ []
        → initiator_loop l b64 quoted n (suc f) (c ∷ name) transcript (
            fresh l b64 quoted true
              (initiator_wire l b64 quoted hand switched_to k a b ++ rest)
              o
              no_cfg
              app)
          ≡ ret tt (
              done l (
                shaking l
                  (open_stream rest
                    (o ++ (frame refused msg ++ responder_wire l b64 quoted hand k a b)))
                  true
                  no_cfg
                  []
                  app
                  (ends l hand (suc k) (took b) (wrote a)).0
                  (last l hand (suc k) (newer l (states a) none) (took b) (wrote a))))
    unfolding initiator_loop initiator_react initiator_switch
    initiator_switched n f transcript cfg cfg' no_cfg h h' rest o app codec plain carried built made
          sent allowed built' made' count bytes =
        let whole : messages cfg' - 0 ≡ suc (suc k) = omega (arith, count) in
        let later = (wires l hand (suc k) (took b) (wrote a)).1 ++ rest in
        let i = frame switched_to (message a) ++ later in
        ap
          (λ w.
            initiator_loop l b64 quoted n (suc f) (c ∷ name) transcript
              (fresh l b64 quoted true w o no_cfg app))
          (append_assoc (frame switched_to (message a)) (wires l hand (suc k) (took b) (wrote a)).1
            rest)
        ∙ simp
            (
              carried,
              built,
              new_hs_lem l b64 quoted cfg (fresh l b64 quoted true i o no_cfg app) refused
                  transcript h made,
              first_lem l b64 quoted h h' msg sent,
              ◌>>=◌,
              ◌>>◌,
              record_lem l b64 quoted refused msg i o app true no_cfg fits msg_fits,
              frame_lem l b64 quoted switched_to (message a) later (o ++ frame refused msg) app true
                  no_cfg switch_fits (length-message (suc k) a b talk),
              response_starts l b64 quoted act_switch (d ∷ other),
              (parse_neg-encode_response b64 codec d other plain).1,
              allowed,
              built',
              new_hs_lem l b64 quoted cfg'
                  (fresh l b64 quoted true later (o ++ frame refused msg) no_cfg app) switched_to
                  (transcript ++ frame_bytes refused msg) b made',
              drive_from_lem l b64 quoted hand (suc k) a b rest (o ++ frame refused msg) app true
                  false 0 (messages cfg') no_cfg talk bytes whole refl,
              append_assoc o (frame refused msg) (responder_wire l b64 quoted hand k a b),
            )
            refl

    pub responder_switched :
        (n : Negotiation l b64 quoted) (f : ℕ) (others : List Bytes) (transcript : Bytes)
        (cfg no_cfg : Config) (rest o app : Bytes)
        → IsCodec b64
        → IsPlain (c ∷ name)
        → n.supported ≡ (d ∷ other) ∷ others
        → supports (c ∷ name) ((d ∷ other) ∷ others) ≡ false
        → n.policy ≡ policy_switch
        → n.build_config (d ∷ other) true ≡ ok cfg
        → new_handshake_state (
            prepared_after l b64 quoted switched_to app (transcript ++ frame_bytes refused msg) cfg)
          ≡ ok a
        → messages cfg ≡ suc (suc k)
        → states a ≡ none
        → responder_loop l b64 quoted n (suc f) transcript (
            fresh l b64 quoted false
              ((frame refused msg ++ responder_wire l b64 quoted hand k a b) ++ rest)
              o
              no_cfg
              app)
          ≡ ret tt (
              done l (
                shaking l
                  (open_stream rest (o ++ initiator_wire l b64 quoted hand switched_to k a b))
                  false
                  no_cfg
                  []
                  app
                  (ends l hand (suc k) (took b) (wrote a)).1
                  (last l hand (suc k) none (took b) (wrote a))))
    unfolding responder_loop apply_policy responder_switch
    responder_switched n f others transcript cfg no_cfg rest o app codec plain list unsupported
          policy built made count not_yet =
        let left : messages cfg - 1 ≡ suc k = omega (arith, count) in
        let later = responder_wire l b64 quoted hand k a b ++ rest in
        ap
          (λ w.
            responder_loop l b64 quoted n (suc f) transcript
              (fresh l b64 quoted false w o no_cfg app))
          (append_assoc (frame refused msg) (responder_wire l b64 quoted hand k a b) rest)
        ∙ simp
            (
              list,
              policy,
              frame_lem l b64 quoted refused msg later o app false no_cfg fits msg_fits,
              ◌>>=◌,
              ◌>>◌,
              parse_neg-encode_proposal b64 codec c name app_data plain,
              unsupported,
              built,
              new_hs_lem l b64 quoted cfg (fresh l b64 quoted false later o no_cfg app) switched_to
                  (transcript ++ frame_bytes refused msg) a made,
              first_message_lem l b64 quoted hand (suc k) a b talk not_yet,
              record_lem l b64 quoted switched_to (message a) later o app false no_cfg switch_fits
                  (length-message (suc k) a b talk),
              drive_behind k a b rest (o ++ frame switched_to (message a)) app false (messages cfg)
                  no_cfg (hand.go_on (suc k) a b talk) left,
              append_assoc o (frame switched_to (message a))
                  (wires l hand (suc k) (took b) (wrote a)).1,
            )
            refl
