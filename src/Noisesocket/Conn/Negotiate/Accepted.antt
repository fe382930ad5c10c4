-- ===== src/Noisesocket/Conn/Negotiate/Accepted.antt =====
-- The two ends of the negotiation against one another, where the proposal is supported.
use noisecat.Base.{
  arith, ap, ◌∙◌, ℕ, suc, ◌≤◌, ◌≢◌, ◌++◌, ◌≡◌, refl, true, false, none, some, [], ◌∷◌, Bytes,
  length, append-nil, ok, ret, open_stream,
}
use noisecat.Flynn.{NoiseLibrary, IsHandshake}
use noisecat.Noisesocket.Framing.{max_message_len, build_prologue}
use noisecat.Noisesocket.Neg.{Base64, encode_proposal, supports}
use noisecat.Noisesocket.Neg.RoundTrip.{IsPlain, IsCodec}
use noisecat.Noisesocket.Conn.{client, server, new_conn}
use noisecat.Noisesocket.Conn.Rounds.{shaking, newer}
use noisecat.Noisesocket.Conn.Handshake.{prepared, done, ends, last_lem, done_with}
use noisecat.Noisesocket.Conn.Negotiate.{
  Negotiation, negotiate_initiator, negotiate_responder, handshake_negotiated, handshake_any,
}
use noisecat.Noisesocket.Conn.Negotiate.Ends.{
  prepared_after, initiator_wire, responder_wire, initiator_lem, responder_lem,
}

module _ (l : NoiseLibrary) (b64 : Base64) (quoted : Bytes → Bytes) (hand : IsHandshake l) where
  open l use {Config, HandshakeState, CipherState, messages, with_prologue, new_handshake_state}
  open hand use {Talk, message, wrote, took, states, not_yet, go_on}

  module _ (c : ℕ) (name app_data : Bytes)
      (fits : length (encode_proposal b64 (c ∷ name) app_data) ≤ max_message_len) where
    abbrev first_proposal : Bytes
    first_proposal = encode_proposal b64 (c ∷ name) app_data

    module _ (k : ℕ) (a b : HandshakeState) (talk : Talk (suc (suc k)) a b) where
      made_first :
          (app : Bytes) (cfg : Config) (h : HandshakeState)
          → new_handshake_state (prepared l first_proposal app cfg) ≡ ok h
          → new_handshake_state (prepared_after l b64 quoted first_proposal app [] cfg) ≡ ok h
      made_first app cfg h made =
          ap (λ p. new_handshake_state (with_prologue p cfg))
            (append-nil (build_prologue first_proposal app))
          ∙ made

      -- Both ends with a negotiation, where the initiator's proposal, a name without a semicolon, is
      -- supported by the responder, both can build its configuration, the new states under the
      -- prologue of the proposal fit one another, and the pattern has two messages at least, the first
      -- two of which have a byte: the negotiation accepts the proposal and the handshake completes over
      -- a stream that loses nothing, whatever follows it, and both ends have two cipher states, the
      -- same in mirrored roles.
      pub negotiation_accepted :
          (ni nr : Negotiation l b64 quoted) (cfg cfg' no_cfg : Config) (app app' : Bytes)
          → IsCodec b64
          → IsPlain (c ∷ name)
          → ni.proposed ≡ c ∷ name
          → ni.app_data ≡ app_data
          → supports (c ∷ name) nr.supported ≡ true
          → ni.build_config (c ∷ name) true ≡ ok cfg
          → nr.build_config (c ∷ name) false ≡ ok cfg'
          → new_handshake_state (prepared l first_proposal app cfg) ≡ ok a
          → new_handshake_state (prepared l first_proposal app' cfg') ≡ ok b
          → messages cfg ≡ suc (suc k)
          → messages cfg' ≡ suc (suc k)
          → message a ≢ []
          → message (took b) ≢ []
          → (m n : Bytes) × (ha hb : HandshakeState) × (p : CipherState × CipherState) × ((rest
                o : Bytes)
              → handshake_any l b64 quoted
                  (some ni)
                  (client l (open_stream (n ++ rest) o) no_cfg [] app)
                ≡ ret tt
                    (done l (shaking l (open_stream rest (o ++ m)) true no_cfg [] app ha (some p))))
            × ((rest o : Bytes)
                → handshake_any l b64 quoted
                    (some nr)
                    (server l (open_stream (m ++ rest) o) no_cfg [] app')
                  ≡ ret tt (
                      done l
                        (shaking l (open_stream rest (o ++ n)) false no_cfg [] app' hb (some p))))
      unfolding handshake_any handshake_negotiated negotiate_initiator negotiate_responder client
          server new_conn
      negotiation_accepted ni nr cfg cfg' no_cfg app app' codec plain proposed carried supported
            built built' made made' count count' bytes bytes' =
          let same : newer l (states a) none ≡ none = simp (not_yet k a b talk) refl in
          let (p, whole) =
            last_lem l hand (suc k) (took b) (wrote a) none (omega arith)
              (go_on (suc k) a b talk) in
          (
            initiator_wire l b64 quoted hand first_proposal k a b,
            responder_wire l b64 quoted hand k a b,
            (ends l hand (suc k) (took b) (wrote a)).1,
            (ends l hand (suc k) (took b) (wrote a)).0,
            p,
            λ rest o. done_with l whole (
                simp proposed (
                  initiator_lem l b64 quoted hand c name app_data fits k a b talk ni 3 [] cfg no_cfg
                    rest o app carried built (made_first app cfg a made) count (not_yet k a b talk)
                    bytes')),
            λ rest o. done_with l whole (
                simp same at (
                  responder_lem l b64 quoted hand c name app_data fits k a b talk nr 3 [] cfg'
                    no_cfg rest o app' codec plain supported built' (made_first app' cfg' b made')
                    count' bytes)),
          )
