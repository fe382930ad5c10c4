-- ===== src/Noisesocket/Conn/Negotiate/Retry.antt =====
-- A round of the negotiation at each end in which the responder asks for another protocol, and the
-- last round behind it.
use noisecat.Base.{
  ℕ, suc, ◌≤◌, ◌≢◌, ◌++◌, ◌≡◌, ◌∙◌, ap, refl, arith, true, false, none, [], ◌∷◌, Bytes, List,
  length, append_assoc, ok, ret, ◌>>=◌, ◌>>◌, open_stream, equal_refl,
}
use noisecat.Flynn.{NoiseLibrary, IsHandshake}
use noisecat.Noisesocket.Framing.{max_message_len, frame_bytes}
use noisecat.Noisesocket.Neg.{
  Base64, act_retry, encode_proposal, encode_response, supports, allowed_protocol, is_empty,
}
use noisecat.Noisesocket.Neg.RoundTrip.{
  IsPlain, IsCodec, parse_neg-encode_proposal, parse_neg-encode_response,
}
use noisecat.Noisesocket.Conn.Rounds.{frame, shaking, newer}
use noisecat.Noisesocket.Conn.Handshake.{done, ends, last}
use noisecat.Noisesocket.Conn.Negotiate.{
  Negotiation, policy_retry, first_message, initiator_loop, initiator_react, responder_loop,
  apply_policy,
}
use noisecat.Noisesocket.Conn.Negotiate.Ends.{
  prepared_after, new_hs_lem, fresh, record_lem, frame_lem, initiator_wire, responder_wire,
  initiator_lem, responder_lem,
}

module _ (l : NoiseLibrary) (b64 : Base64) (quoted : Bytes → Bytes) where
  open l use {Config, HandshakeState, messages, new_handshake_state, write_message}

  pub response_starts : (act proto : Bytes) → is_empty b64 (encode_response act proto []) ≡ false
  unfolding encode_response
  response_starts act proto = refl

  pub first_lem :
      (h h' : HandshakeState) (msg : Bytes)
      → write_message h ≡ ret (msg, none) h'
      → first_message l b64 quoted h ≡ ok ((msg, none), h')
  unfolding first_message
  first_lem h h' msg sent = simp (first_message, sent) refl

  -- The first proposal `c ∷ name` with the message `msg`, and the response that asks for `d ∷ other`.
  module _ (c d : ℕ) (name other app_data msg : Bytes)
      (fits : length (encode_proposal b64 (c ∷ name) app_data) ≤ max_message_len)
      (answer_fits : length (encode_response act_retry (d ∷ other) []) ≤ max_message_len)
      (msg_fits : length msg ≤ max_message_len) where
    abbrev pub refused_proposal : Bytes
    refused_proposal = encode_proposal b64 (c ∷ name) app_data

    abbrev pub answer : Bytes
    answer = encode_response act_retry (d ∷ other) []

    -- What both ends mix into the prologue of the next round.
    abbrev pub exchanged : Bytes
    exchanged = frame_bytes refused_proposal msg ++ frame_bytes answer []

    initiator_retry :
        (n : Negotiation l b64 quoted) (f : ℕ) (transcript : Bytes) (cfg no_cfg : Config)
        (h h' : HandshakeState) (rest o app : Bytes)
        → IsCodec b64
        → IsPlain (d ∷ other)
        → n.app_data ≡ app_data
        → n.build_config (c ∷ name) true ≡ ok cfg
        → new_handshake_state (prepared_after l b64 quoted refused_proposal app transcript cfg)
          ≡ ok h
        → write_message h ≡ ret (msg, none) h'
        → allowed_protocol (d ∷ other) n.proposed n.fallback ≡ true
        → initiator_loop l b64 quoted n
            (suc f)
            (c ∷ name)
            transcript
            (fresh l b64 quoted true (frame answer [] ++ rest) o no_cfg app)
          ≡ initiator_loop l b64 quoted n f
              (d ∷ other)
              (transcript ++ exchanged)
              (fresh l b64 quoted true rest (o ++ frame refused_proposal msg) no_cfg app)
    unfolding initiator_loop initiator_react
    initiator_retry n f transcript cfg no_cfg h h' rest o app codec plain carried built made sent
          allowed =
        simp
          (
            carried,
            built,
            new_hs_lem l b64 quoted cfg
                (fresh l b64 quoted true (frame answer [] ++ rest) o no_cfg app) refused_proposal
                transcript h made,
            first_lem h h' msg sent,
            ◌>>=◌,
            ◌>>◌,
            record_lem l b64 quoted refused_proposal msg (frame answer [] ++ rest) o app true no_cfg
                fits msg_fits,
            frame_lem l b64 quoted answer [] rest (o ++ frame refused_proposal msg) app true no_cfg
                answer_fits (omega arith),
            response_starts act_retry (d ∷ other),
            (parse_neg-encode_response b64 codec d other plain).0,
            allowed,
          )
          refl

    responder_retry :
        (n : Negotiation l b64 quoted) (f : ℕ) (others : List Bytes) (transcript : Bytes)
        (no_cfg : Config) (rest o app : Bytes)
        → IsCodec b64
        → IsPlain (c ∷ name)
        → n.supported ≡ (d ∷ other) ∷ others
        → supports (c ∷ name) ((d ∷ other) ∷ others) ≡ false
        → n.policy ≡ policy_retry
        → responder_loop l b64 quoted n
            (suc f)
            transcript
            (fresh l b64 quoted false (frame refused_proposal msg ++ rest) o no_cfg app)
          ≡ responder_loop l b64 quoted n f
              (transcript ++ exchanged)
              (fresh l b64 quoted false rest (o ++ frame answer []) no_cfg app)
    unfolding responder_loop apply_policy
    responder_retry n f others transcript no_cfg rest o app codec plain list unsupported policy =
        simp
          (
            list,
            policy,
            frame_lem l b64 quoted refused_proposal msg rest o app false no_cfg fits msg_fits,
            ◌>>=◌,
            ◌>>◌,
            parse_neg-encode_proposal b64 codec c name app_data plain,
            unsupported,
            record_lem l b64 quoted answer [] rest o app false no_cfg answer_fits (omega arith),
          )
          refl

    module _ (hand : IsHandshake l) where
      open hand use {Talk, message, wrote, took, states}

      -- The second round, with `k + 2` messages.
      module _ (refits : length (encode_proposal b64 (d ∷ other) app_data) ≤ max_message_len)
          (k : ℕ) (a b : HandshakeState) (talk : Talk (suc (suc k)) a b) where
        abbrev pub proposal_again : Bytes
        proposal_again = encode_proposal b64 (d ∷ other) app_data

        abbrev pub sent_by_initiator : Bytes
        sent_by_initiator = initiator_wire l b64 quoted hand proposal_again k a b

        abbrev pub sent_by_responder : Bytes
        sent_by_responder = responder_wire l b64 quoted hand k a b

        first_supported : (others : List Bytes) → supports (d ∷ other) ((d ∷ other) ∷ others) ≡ true
        unfolding supports
        first_supported others = simp (equal_refl (d ∷ other)) refl

        pub initiator_end :
            (n : Negotiation l b64 quoted) (cfg cfg' no_cfg : Config) (h h' : HandshakeState)
            (rest o app : Bytes)
            → IsCodec b64
            → IsPlain (d ∷ other)
            → n.app_data ≡ app_data
            → n.build_config (c ∷ name) true ≡ ok cfg
            → new_handshake_state (prepared_after l b64 quoted refused_proposal app [] cfg) ≡ ok h
            → write_message h ≡ ret (msg, none) h'
            → allowed_protocol (d ∷ other) n.proposed n.fallback ≡ true
            → n.build_config (d ∷ other) true ≡ ok cfg'
            → new_handshake_state (prepared_after l b64 quoted proposal_again app exchanged cfg')
              ≡ ok a
            → messages cfg' ≡ suc (suc k)
            → states a ≡ none
            → message (took b) ≢ []
            → initiator_loop l b64 quoted n 4 (c ∷ name) [] (
                fresh l b64 quoted true
                  ((frame answer [] ++ sent_by_responder) ++ rest)
                  o
                  no_cfg
                  app)
              ≡ ret tt (
                  done l (
                    shaking l
                      (open_stream rest (o ++ (frame refused_proposal msg ++ sent_by_initiator)))
                      true
                      no_cfg
                      []
                      app
                      (ends l hand (suc k) (took b) (wrote a)).1
                      (last l hand (suc k) none (took b) (wrote a))))
        initiator_end n cfg cfg' no_cfg h h' rest o app codec plain carried built made sent allowed
              built' made' count not_yet bytes =
            ap
              (λ w.
                initiator_loop l b64 quoted n 4 (c ∷ name) []
                  (fresh l b64 quoted true w o no_cfg app))
              (append_assoc (frame answer []) sent_by_responder rest)
            ∙ initiator_retry n 3 [] cfg no_cfg h h' (sent_by_responder ++ rest) o app codec plain
                carried built made sent allowed
            ∙ initiator_lem l b64 quoted hand d other app_data refits k a b talk n 2 exchanged cfg'
                no_cfg rest (o ++ frame refused_proposal msg) app carried built' made' count not_yet
                bytes
            ∙ ap
                (λ w. ret tt (
                  done l (
                    shaking l (open_stream rest w) true no_cfg [] app
                      (ends l hand (suc k) (took b) (wrote a)).1
                      (last l hand (suc k) none (took b) (wrote a)))))
                (append_assoc o (frame refused_proposal msg) sent_by_initiator)

        pub responder_end :
            (n : Negotiation l b64 quoted) (others : List Bytes) (cfg no_cfg : Config)
            (rest o app : Bytes)
            → IsCodec b64
            → IsPlain (c ∷ name)
            → IsPlain (d ∷ other)
            → n.supported ≡ (d ∷ other) ∷ others
            → supports (c ∷ name) ((d ∷ other) ∷ others) ≡ false
            → n.policy ≡ policy_retry
            → n.build_config (d ∷ other) false ≡ ok cfg
            → new_handshake_state (prepared_after l b64 quoted proposal_again app exchanged cfg)
              ≡ ok b
            → messages cfg ≡ suc (suc k)
            → message a ≢ []
            → responder_loop l b64 quoted n 4 [] (
                fresh l b64 quoted false
                  ((frame refused_proposal msg ++ sent_by_initiator) ++ rest)
                  o
                  no_cfg
                  app)
              ≡ ret tt (
                  done l (
                    shaking l
                      (open_stream rest (o ++ (frame answer [] ++ sent_by_responder)))
                      false
                      no_cfg
                      []
                      app
                      (ends l hand (suc k) (took b) (wrote a)).0
                      (last l hand (suc k) (newer l (states a) none) (took b) (wrote a))))
        responder_end n others cfg no_cfg rest o app codec plain plain' list unsupported policy
              built made count bytes =
            let known : supports (d ∷ other) n.supported ≡ true =
              ap (supports (d ∷ other)) list ∙ first_supported others in
            ap (λ w. responder_loop l b64 quoted n 4 [] (fresh l b64 quoted false w o no_cfg app))
              (append_assoc (frame refused_proposal msg) sent_by_initiator rest)
            ∙ responder_retry n 3 others [] no_cfg (sent_by_initiator ++ rest) o app codec plain
                list unsupported policy
            ∙ responder_lem l b64 quoted hand d other app_data refits k a b talk n 2 exchanged cfg
                no_cfg rest (o ++ frame answer []) app codec plain' known built made count bytes
            ∙ ap
                (λ w. ret tt (
                  done l (
                    shaking l (open_stream rest w) false no_cfg [] app
                      (ends l hand (suc k) (took b) (wrote a)).0
                      (last l hand (suc k) (newer l (states a) none) (took b) (wrote a)))))
                (append_assoc o (frame answer []) sent_by_responder)
