-- ===== src/Noisesocket/Conn/Negotiate/Switched.antt =====
-- The two ends of the negotiation against one another, where the responder becomes the initiator.
use noisecat.Base.{
  arith, ℕ, suc, ◌≤◌, ◌≢◌, ◌++◌, ◌≡◌, refl, true, false, some, none, [], ◌∷◌, Bytes, List, length,
  ok, ret, open_stream,
}
use noisecat.Flynn.{NoiseLibrary, IsHandshake}
use noisecat.Noisesocket.Framing.{frame_bytes, max_message_len}
use noisecat.Noisesocket.Neg.{
  Base64, act_switch, encode_proposal, encode_response, supports, allowed_protocol,
}
use noisecat.Noisesocket.Neg.RoundTrip.{IsPlain, IsCodec}
use noisecat.Noisesocket.Conn.{client, server, new_conn}
use noisecat.Noisesocket.Conn.Rounds.{frame, shaking, newer}
use noisecat.Noisesocket.Conn.Handshake.{done, ends, last_lem, done_with}
use noisecat.Noisesocket.Conn.Negotiate.{
  Negotiation, policy_switch, negotiate_initiator, negotiate_responder, handshake_negotiated,
  handshake_any,
}
use noisecat.Noisesocket.Conn.Negotiate.Ends.{prepared_after, initiator_wire, responder_wire}
use noisecat.Noisesocket.Conn.Negotiate.Switch.{initiator_switched, responder_switched}

module _ (l : NoiseLibrary) (b64 : Base64) (quoted : Bytes → Bytes) (hand : IsHandshake l) where
  open l use {
    Config, HandshakeState, CipherState, messages, with_prologue, new_handshake_state,
    write_message,
  }
  open hand use {Talk, message, wrote, took, states, not_yet, go_on}

  module _ (c d : ℕ) (name other app_data msg : Bytes)
      (fits : length (encode_proposal b64 (c ∷ name) app_data) ≤ max_message_len)
      (switch_fits : length (encode_response act_switch (d ∷ other) []) ≤ max_message_len)
      (msg_fits : length msg ≤ max_message_len) where
    abbrev first_proposal : Bytes
    first_proposal = encode_proposal b64 (c ∷ name) app_data

    abbrev switch_neg : Bytes
    switch_neg = encode_response act_switch (d ∷ other) []

    -- Both ends with a negotiation, where the responder, whose policy is to switch, does not support the
    -- initiator's proposal and prefers a protocol that the initiator allows; names have no semicolon,
    -- both can build the configuration of the second with their roles swapped, the initiator that of the
    -- first with a message that is not its last; the new states under the prologue of the switch behind
    -- the first frame fit one another, and the pattern has two messages at least, the first of which has
    -- a byte and is not the last: the handshake with the roles swapped completes over a stream that
    -- loses nothing, whatever follows it, and both ends have two cipher states, the same in mirrored
    -- roles, the first of them for what the client sends.
    pub negotiation_switched :
        (ni nr : Negotiation l b64 quoted) (others : List Bytes) (cfg0 cfg cfg' no_cfg : Config)
        (app app' : Bytes) (h h' a b : HandshakeState) (k : ℕ)
        → IsCodec b64
        → IsPlain (c ∷ name)
        → IsPlain (d ∷ other)
        → ni.proposed ≡ c ∷ name
        → ni.app_data ≡ app_data
        → allowed_protocol (d ∷ other) ni.proposed ni.fallback ≡ true
        → nr.supported ≡ (d ∷ other) ∷ others
        → supports (c ∷ name) ((d ∷ other) ∷ others) ≡ false
        → nr.policy ≡ policy_switch
        → ni.build_config (c ∷ name) true ≡ ok cfg0
        → ni.build_config (d ∷ other) false ≡ ok cfg
        → nr.build_config (d ∷ other) true ≡ ok cfg'
        → new_handshake_state (prepared_after l b64 quoted first_proposal app [] cfg0) ≡ ok h
        → write_message h ≡ ret (msg, none) h'
        → new_handshake_state
            (prepared_after l b64 quoted switch_neg app (frame_bytes first_proposal msg) cfg)
          ≡ ok b
        → new_handshake_state
            (prepared_after l b64 quoted switch_neg app' (frame_bytes first_proposal msg) cfg')
          ≡ ok a
        → messages cfg ≡ suc (suc k)
        → messages cfg' ≡ suc (suc k)
        → Talk (suc (suc k)) a b
        → message a ≢ []
        → (m n : Bytes) × (ha hb : HandshakeState) × (p : CipherState × CipherState) × ((rest
              o : Bytes)
            → handshake_any l b64 quoted
                (some ni)
                (client l (open_stream (n ++ rest) o) no_cfg [] app)
              ≡ ret tt
                  (done l (shaking l (open_stream rest (o ++ m)) true no_cfg [] app ha (some p))))
          × ((rest o : Bytes)
              → handshake_any l b64 quoted
                  (some nr)
                  (server l (open_stream (m ++ rest) o) no_cfg [] app')
                ≡ ret tt (
                    done l
                      (shaking l (open_stream rest (o ++ n)) false no_cfg [] app' hb (some p))))
    unfolding handshake_any handshake_negotiated negotiate_initiator negotiate_responder client
        server new_conn
    negotiation_switched ni nr others cfg0 cfg cfg' no_cfg app app' h h' a b k codec plain plain'
          proposed carried allowed list unsupported policy built0 built built' made0 sent made made'
          count count' talk bytes =
        let same : newer l (states a) none ≡ none = simp (not_yet k a b talk) refl in
        let (p, whole) =
          last_lem l hand (suc k) (took b) (wrote a) none (omega arith) (go_on (suc k) a b talk) in
        (
          frame first_proposal msg ++ responder_wire l b64 quoted hand k a b,
          initiator_wire l b64 quoted hand switch_neg k a b,
          (ends l hand (suc k) (took b) (wrote a)).0,
          (ends l hand (suc k) (took b) (wrote a)).1,
          p,
          λ rest o. done_with l whole (
              simp proposed (
                simp same at (
                  initiator_switched l b64 quoted hand c d name other app_data msg fits switch_fits
                    msg_fits k a b talk ni 3 [] cfg0 cfg no_cfg h h' rest o app codec plain' carried
                    built0 made0 sent allowed built made count bytes))),
          λ rest o. done_with l whole (
              responder_switched l b64 quoted hand c d name other app_data msg fits switch_fits
                msg_fits k a b talk nr 3 others [] cfg' no_cfg rest o app' codec plain list
                unsupported policy built' made' count' (not_yet k a b talk)),
        )
