-- ===== src/Noisesocket/Conn/Negotiate.antt =====
-- pkg/transport/noisesocket/handshake_neg.go: the negotiation layer. `quoted` is fmt's %q; `cfg` of the
-- connection plays no part here, a configuration is built for each attempt.
pub mod Adoption
pub mod Faults
pub mod Drive
pub mod Ends
pub mod Accepted
pub mod Retry
pub mod Retried
pub mod Switch
pub mod Switched
use noisecat.Base.{
  ℕ, zero, suc, ◌-◌, ◌%◌, ◌++◌, Bool, true, false, not, Option, none, some, List, [], ◌∷◌, Bytes,
  equal, ◌==◌, if◌then◌else◌, text, wrap, panics, Result, ok, err, ret, raise, Action, ◌>>=◌, ◌>>◌,
  pure, fail, lift, guard, gets, modify, wrapped, wrapping,
}
use noisecat.Flynn.{NoiseLibrary}
use noisecat.Noisesocket.Framing.{
  frame_bytes, build_prologue, write_handshake_frame, read_handshake_frame,
}
use noisecat.Noisesocket.Neg.{
  Base64, NegMsg, max_neg_attempts, act_reject, act_retry, act_switch, is_empty, encode_proposal,
  encode_response, parse_neg, allowed_protocol, supports,
}
use noisecat.Noisesocket.Conn.{Conn, on_conn, on_hs, assign_cipher_states, handshake}

-- transport.NegotiationPolicy; `unset` is the empty string, `unknown` any other text.
pub data Policy : Type 0 where
  policy_reject policy_retry policy_switch unset unknown : Policy

-- "protocol " and " not supported"
abbrev pub unsupported : Bytes → Bytes
unsupported quoted_name =
    (b'p' ∷ b'r' ∷ b'o' ∷ b't' ∷ b'o' ∷ b'c' ∷ b'o' ∷ b'l' ∷ b' ' ∷ quoted_name)
    ++ (b' ' ∷ b'n' ∷ b'o' ∷ b't' ∷ b' ' ∷ b's' ∷ b'u' ∷ b'p' ∷ b'p' ∷ b'o' ∷ b'r' ∷ b't' ∷ b'e'
        ∷ b'd' ∷ [])

module _ (l : NoiseLibrary) (b64 : Base64) (quoted : Bytes → Bytes) where
  open l use {
    Config, HandshakeState, CipherState, messages, with_prologue, new_handshake_state,
    write_message, read_message,
  }

  -- transport.Negotiation
  pub record Negotiation : Type 0 where
    pub build_config : Bytes → Bool → Result Config
    pub app_data : Bytes
    pub proposed : Bytes
    pub fallback : List Bytes
    pub supported : List Bytes
    pub policy : Policy

  unfoldable pub new_hs : Config → Bytes → Result HandshakeState
  new_hs cfg prologue =
      wrapped "noisesocket: NewHandshakeState" (new_handshake_state (with_prologue prologue cfg))

  unfoldable pub write_frame_and_record : Bytes → Bytes → Action (Conn l) Bytes
  write_frame_and_record neg msg = do
    on_conn l (write_handshake_frame neg msg)
    pure (frame_bytes neg msg)

  unfoldable pub prologue_with : Conn l → Bytes → Bytes → Bytes
  prologue_with c init_neg transcript = build_prologue init_neg c.app_prologue ++ transcript

  -- A message of a state that is not the connection's yet.
  unfoldable pub first_message :
      HandshakeState → Result ((Bytes × Option (CipherState × CipherState)) × HandshakeState)
  first_message h = elim (write_message h) [
    | ret a h' ↦ ok (a, h')
    | raise e h' ↦ err (wrap "noisesocket: WriteMessage" e)
  ]

  -- The inbound message of a read turn: the pending one, or the next frame's.
  inbound : Option Bytes → Action (Conn l) Bytes
  inbound (some m) = pure m
  inbound none = do f ← on_conn l read_handshake_frame; pure f.1

  unfoldable pub drive_loop : ℕ → Bool → Option Bytes → Action (Conn l) (Unit {0})
  unfolding inbound
  drive_loop zero write_turn pending = pure tt
  drive_loop (suc k) true pending = do
    (msg, cs) ← on_hs l "noisesocket: WriteMessage" write_message
    write_frame_and_record [] msg
    modify (assign_cipher_states l cs)
    drive_loop k false pending
  drive_loop (suc k) false pending = do
    m ← inbound pending
    cs ← on_hs l "noisesocket: ReadMessage" (read_message m)
    modify (assign_cipher_states l cs)
    drive_loop k true none

  -- A slice that was read is nil where it is empty.
  abbrev pub pending_of : Bytes → Option Bytes
  pending_of [] = none
  pending_of (b ∷ bs) = some (b ∷ bs)

  -- driveFrom; the turn at `start_index`, which is 0 or 1, is a write where they agree.
  unfoldable pub drive_from :
      HandshakeState → ℕ → Bool → ℕ → Option Bytes → Action (Conn l) (Unit {0})
  drive_from h total initiator start_index pending = do
    modify (λ c. record c { hs = some h })
    let even = start_index % 2 == 0
    drive_loop (total - start_index) (if even then initiator else not initiator) pending
    modify (λ c. record c { handshake_done = true })

  abbrev pub no_states : Option (CipherState × CipherState) → Bool
  no_states none = true
  no_states (some p) = false

  module _ (n : Negotiation) where
    abbrev pub config_for : Bytes → Bool → Action (Conn l) Config
    config_for proto initiator =
        wrapping "noisesocket: build config" (lift (n.build_config proto initiator))

    -- The initiator becomes the responder of the protocol that it was told.
    unfoldable pub initiator_switch : Bytes → Bytes → Bytes → Bytes → Action (Conn l) (Unit {0})
    initiator_switch proto rneg rmsg transcript = do
      c ← gets (λ c. c)
      cfg ← config_for proto false
      h ← lift (new_hs cfg (prologue_with c rneg transcript))
      drive_from h (messages cfg) false 0 (pending_of rmsg)

    -- The switch on the response. `again` is the next round of the loop.
    unfoldable pub initiator_react :
        NegMsg
        → Bytes
        → Bytes
        → Bytes
        → Bytes
        → (Bytes → Bytes → Action (Conn l) (Unit {0}))
        → Action (Conn l) (Unit {0})
    initiator_react resp sent rneg rmsg transcript again =
        if equal resp.action act_reject
        then fail (text "noisesocket: peer rejected negotiation")
        else if equal resp.action act_retry
        then (if allowed_protocol resp.proto n.proposed n.fallback
            then again resp.proto (transcript ++ (sent ++ frame_bytes rneg rmsg))
            else fail (text "noisesocket: responder asked to retry with disallowed protocol"))
        else if equal resp.action act_switch
        then (if allowed_protocol resp.proto n.proposed n.fallback
            then initiator_switch resp.proto rneg rmsg (transcript ++ sent)
            else fail (text "noisesocket: responder asked to switch to disallowed protocol"))
        else fail (text "noisesocket: unexpected action in response")

    unfoldable pub initiator_loop : ℕ → Bytes → Bytes → Action (Conn l) (Unit {0})
    initiator_loop zero proto transcript =
        fail (text "noisesocket: negotiation exceeded maximum attempts")
    initiator_loop (suc k) proto transcript = do
      c ← gets (λ c. c)
      cfg ← config_for proto true
      let init_neg = encode_proposal b64 proto n.app_data
      h ← lift (new_hs cfg (prologue_with c init_neg transcript))
      ((msg1, cs), h') ← lift (first_message h)
      guard (no_states cs) (text "noisesocket: negotiation unsupported for single-message patterns")
      sent ← write_frame_and_record init_neg msg1
      (rneg, rmsg) ← on_conn l read_handshake_frame
      if is_empty b64 rneg then drive_from h' (messages cfg) true 1 (pending_of rmsg) else do
        resp ← lift (parse_neg b64 rneg)
        initiator_react resp sent rneg rmsg transcript (initiator_loop k)

    unfoldable pub negotiate_initiator : Action (Conn l) (Unit {0})
    negotiate_initiator = initiator_loop max_neg_attempts n.proposed []

    -- `c.neg.Supported[0]`
    abbrev pub preferred : List Bytes → Action (Conn l) Bytes
    preferred [] = fail (panics "index out of range [0] with length 0")
    preferred (x ∷ xs) = pure x

    unfoldable pub responder_accept : Bytes → Bytes → Bytes → Bytes → Action (Conn l) (Unit {0})
    responder_accept proto ineg imsg transcript = do
      c ← gets (λ c. c)
      cfg ← config_for proto false
      h ← lift (new_hs cfg (prologue_with c ineg transcript))
      drive_from h (messages cfg) false 0 (pending_of imsg)

    unfoldable pub responder_reject : Bytes → Action (Conn l) (Unit {0})
    responder_reject proto = do
      write_frame_and_record (encode_response act_reject [] (unsupported (quoted proto))) []
      fail (text "noisesocket: rejected initiator")

    unfoldable pub responder_switch : Bytes → Bytes → Action (Conn l) (Unit {0})
    responder_switch received transcript = do
      c ← gets (λ c. c)
      target ← preferred n.supported
      cfg ← config_for target true
      let switch_neg = encode_response act_switch target []
      h ← lift (new_hs cfg (prologue_with c switch_neg (transcript ++ received)))
      ((msg0, cs), h') ← lift (first_message h)
      guard (no_states cs) (text "noisesocket: switch unsupported for single-message patterns")
      write_frame_and_record switch_neg msg0
      drive_from h' (messages cfg) true 1 none

    -- A protocol that is not supported. `again` is the next round of the loop.
    unfoldable pub apply_policy :
        Policy
        → Bytes
        → Bytes
        → Bytes
        → (Bytes → Action (Conn l) (Unit {0}))
        → Action (Conn l) (Unit {0})
    apply_policy policy_reject proto received transcript again = responder_reject proto
    apply_policy unset proto received transcript again = responder_reject proto
    apply_policy policy_retry proto received transcript again = do
      target ← preferred n.supported
      sent ← write_frame_and_record (encode_response act_retry target []) []
      again (transcript ++ (received ++ sent))
    apply_policy policy_switch proto received transcript again =
        responder_switch received transcript
    apply_policy unknown proto received transcript again =
        fail (text "noisesocket: unknown negotiation policy")

    unfoldable pub responder_loop : ℕ → Bytes → Action (Conn l) (Unit {0})
    responder_loop zero transcript =
        fail (text "noisesocket: negotiation exceeded maximum attempts")
    responder_loop (suc k) transcript = do
      (ineg, imsg) ← on_conn l read_handshake_frame
      prop ← lift (parse_neg b64 ineg)
      guard (is_empty b64 prop.action) (text "noisesocket: initiator sent unexpected action")
      if supports prop.proto n.supported
          then responder_accept prop.proto ineg imsg transcript
          else apply_policy n.policy prop.proto (frame_bytes ineg imsg) transcript
              (responder_loop k)

    unfoldable pub negotiate_responder : Action (Conn l) (Unit {0})
    negotiate_responder = responder_loop max_neg_attempts []

    -- handshakeNegotiated
    unfoldable pub handshake_negotiated : Action (Conn l) (Unit {0})
    handshake_negotiated = do
      client ← gets (λ c. c.is_client)
      if client then negotiate_initiator else negotiate_responder

  -- Handshake, whether or not the connection has a negotiation.
  unfoldable pub handshake_any : Option Negotiation → Action (Conn l) (Unit {0})
  handshake_any none c = handshake l c
  handshake_any (some n) c = if c.handshake_done then ret tt c else handshake_negotiated n c
