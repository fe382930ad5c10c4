-- ===== src/Noisesocket/Conn/Negotiate/Retried.antt =====
-- The two ends of the negotiation against one another, where the responder asks for another protocol.
use noisecat.Base.{
  arith, ℕ, suc, ◌≤◌, ◌≢◌, ◌++◌, ◌≡◌, refl, true, false, some, none, [], ◌∷◌, Bytes, List, length,
  ok, ret, open_stream,
}
use noisecat.Flynn.{NoiseLibrary, IsHandshake}
use noisecat.Noisesocket.Framing.{max_message_len}
use noisecat.Noisesocket.Neg.{
  Base64, act_retry, encode_proposal, encode_response, supports, allowed_protocol,
}
use noisecat.Noisesocket.Neg.RoundTrip.{IsPlain, IsCodec}
use noisecat.Noisesocket.Conn.{client, server, new_conn}
use noisecat.Noisesocket.Conn.Rounds.{frame, shaking, newer}
use noisecat.Noisesocket.Conn.Handshake.{done, ends, last_lem, done_with}
use noisecat.Noisesocket.Conn.Negotiate.{
  Negotiation, policy_retry, negotiate_initiator, negotiate_responder, handshake_negotiated,
  handshake_any,
}
use noisecat.Noisesocket.Conn.Negotiate.Ends.{prepared_after, initiator_wire, responder_wire}
use noisecat.Noisesocket.Conn.Negotiate.Retry.{exchanged, initiator_end, responder_end}

module _ (l : NoiseLibrary) (b64 : Base64) (quoted : Bytes → Bytes) where
  open l use {
    Config, HandshakeState, CipherState, messages, with_prologue, new_handshake_state,
    write_message,
  }

  module _ (c d : ℕ) (name other app_data msg : Bytes)
      (fits : length (encode_proposal b64 (c ∷ name) app_data) ≤ max_message_len)
      (answer_fits : length (encode_response act_retry (d ∷ other) []) ≤ max_message_len)
      (msg_fits : length msg ≤ max_message_len)
      (refits : length (encode_proposal b64 (d ∷ other) app_data) ≤ max_message_len)
      (hand : IsHandshake l) where
    open hand use {Talk, message, wrote, took, states, not_yet, go_on}

    abbrev first_proposal : Bytes
    first_proposal = encode_proposal b64 (c ∷ name) app_data

    abbrev second_proposal : Bytes
    second_proposal = encode_proposal b64 (d ∷ other) app_data

    -- The frames of the first round, as both ends mix them into the prologue of the second.
    abbrev pub transcript : Bytes
    transcript = exchanged l b64 quoted c d name other app_data msg fits answer_fits msg_fits

    -- Both ends with a negotiation, where the responder, whose policy is to retry, does not support the
    -- initiator's proposal and prefers a protocol that the initiator allows; names have no semicolon,
    -- both can build the configuration of the second, the initiator that of the first with a message
    -- that is not its last; the new states under the prologue of the second proposal behind the frames
    -- of the first round fit one another, and its pattern has two messages at least, the first two of
    -- which have a byte: the negotiation proposes again and the handshake completes over a stream that
    -- loses nothing, whatever follows it, and both ends have two cipher states, the same in mirrored
    -- roles.
    pub negotiation_retried :
        (ni nr : Negotiation l b64 quoted) (others : List Bytes) (cfg0 cfg cfg' no_cfg : Config)
        (app app' : Bytes) (h h' a b : HandshakeState) (k : ℕ)
        → IsCodec b64
        → IsPlain (c ∷ name)
        → IsPlain (d ∷ other)
        → ni.proposed ≡ c ∷ name
        → ni.app_data ≡ app_data
        → allowed_protocol (d ∷ other) ni.proposed ni.fallback ≡ true
        → nr.supported ≡ (d ∷ other) ∷ others
        → supports (c ∷ name) ((d ∷ other) ∷ others) ≡ false
        → nr.policy ≡ policy_retry
        → ni.build_config (c ∷ name) true ≡ ok cfg0
        → ni.build_config (d ∷ other) true ≡ ok cfg
        → nr.build_config (d ∷ other) false ≡ ok cfg'
        → new_handshake_state (prepared_after l b64 quoted first_proposal app [] cfg0) ≡ ok h
        → write_message h ≡ ret (msg, none) h'
        → new_handshake_state (prepared_after l b64 quoted second_proposal app transcript cfg)
          ≡ ok a
        → new_handshake_state (prepared_after l b64 quoted second_proposal app' transcript cfg')
          ≡ ok b
        → messages cfg ≡ suc (suc k)
        → messages cfg' ≡ suc (suc k)
        → Talk (suc (suc k)) a b
        → message a ≢ []
        → message (took b) ≢ []
        → (m n : Bytes) × (ha hb : HandshakeState) × (p : CipherState × CipherState) × ((rest
              o : Bytes)
            → handshake_any l b64 quoted
                (some ni)
                (client l (open_stream (n ++ rest) o) no_cfg [] app)
              ≡ ret tt
                  (done l (shaking l (open_stream rest (o ++ m)) true no_cfg [] app ha (some p))))
          × ((rest o : Bytes)
              → handshake_any l b64 quoted
                  (some nr)
                  (server l (open_stream (m ++ rest) o) no_cfg [] app')
                ≡ ret tt (
                    done l
                      (shaking l (open_stream rest (o ++ n)) false no_cfg [] app' hb (some p))))
    unfolding handshake_any handshake_negotiated negotiate_initiator negotiate_responder client
        server new_conn
    negotiation_retried ni nr others cfg0 cfg cfg' no_cfg app app' h h' a b k codec plain plain'
          proposed carried allowed list unsupported policy built0 built built' made0 sent made made'
          count count' talk bytes bytes' =
        let same : newer l (states a) none ≡ none = simp (not_yet k a b talk) refl in
        let (p, whole) =
          last_lem l hand (suc k) (took b) (wrote a) none (omega arith) (go_on (suc k) a b talk) in
        (
          frame first_proposal msg ++ initiator_wire l b64 quoted hand second_proposal k a b,
          frame (encode_response act_retry (d ∷ other) []) []
              ++ responder_wire l b64 quoted hand k a b,
          (ends l hand (suc k) (took b) (wrote a)).1,
          (ends l hand (suc k) (took b) (wrote a)).0,
          p,
          λ rest o. done_with l whole (
              simp proposed (
                initiator_end l b64 quoted c d name other app_data msg fits answer_fits msg_fits
                  hand refits k a b talk ni cfg0 cfg no_cfg h h' rest o app codec plain' carried
                  built0 made0 sent allowed built made count (not_yet k a b talk) bytes')),
          λ rest o. done_with l whole (
              simp same at (
                responder_end l b64 quoted c d name other app_data msg fits answer_fits msg_fits
                  hand refits k a b talk nr others cfg' no_cfg rest o app' codec plain plain' list
                  unsupported policy built' made' count' bytes)),
        )
