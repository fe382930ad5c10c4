-- ===== src/Noisesocket/Conn/Negotiate/Adoption.antt =====
-- Which protocols a negotiation can come to.
use noisecat.Base.{
  ℕ, zero, suc, ◌≡◌, ◌⊎◌, refl, Bool, true, false, none, List, [], ◌∷◌, ◌++◌, Bytes, equal,
  equal_refl, if◌then◌else◌, Bool-cases, inl, inr, text, Result, Action, ◌>>=◌, ◌>>◌, pure, fail,
  lift, guard, gets, wrapping,
}
use noisecat.Flynn.{NoiseLibrary}
use noisecat.Noisesocket.Framing.{frame_bytes, read_handshake_frame}
use noisecat.Noisesocket.Neg.{
  Base64, NegMsg, max_neg_attempts, act_reject, act_retry, act_switch, is_empty, encode_proposal,
  encode_response, parse_neg, allowed_protocol, supports,
}
use noisecat.Noisesocket.Conn.{Conn, on_conn}
use noisecat.Noisesocket.Conn.Negotiate.{
  Policy, policy_reject, policy_retry, policy_switch, unset, unknown, Negotiation, new_hs,
  write_frame_and_record, prologue_with, first_message, drive_from, pending_of, no_states,
  initiator_switch, initiator_react, initiator_loop, negotiate_initiator, preferred,
  responder_accept, responder_reject, responder_switch, apply_policy, responder_loop,
  negotiate_responder,
}

List-cases : (xs : List Bytes) → (xs ≡ []) ⊎ ((x : Bytes) × (ys : List Bytes) × (xs ≡ x ∷ ys))
List-cases [] = inl refl
List-cases (x ∷ xs) = inr (x, xs, refl)

module _ (l : NoiseLibrary) (b64 : Base64) (quoted : Bytes → Bytes) where
  open l use {Config}

  -- A negotiation with another way to build a configuration.
  abbrev pub building :
      (Bytes → Bool → Result Config) → Negotiation l b64 quoted → Negotiation l b64 quoted
  building build n = record n { build_config = build }

  module _ (n : Negotiation l b64 quoted) (build : Bytes → Bool → Result Config) where
    other : Negotiation l b64 quoted
    other = building build n

    switch_eq :
        (proto rneg rmsg transcript : Bytes)
        → n.build_config proto false ≡ build proto false
        → initiator_switch l b64 quoted n proto rneg rmsg transcript
          ≡ initiator_switch l b64 quoted other proto rneg rmsg transcript
    unfolding initiator_switch other
    switch_eq proto rneg rmsg transcript same = λ i. do
      c ← gets (λ c. c)
      cfg ← wrapping "noisesocket: build config" (lift (same i))
      h ← lift (new_hs l b64 quoted cfg (prologue_with l b64 quoted c rneg transcript))
      drive_from l b64 quoted h (l.messages cfg) false 0 (pending_of l b64 quoted rmsg)

    react_eq :
        (resp : NegMsg) (sent rneg rmsg transcript : Bytes)
        (again again' : Bytes → Bytes → Action (Conn l) (Unit {0}))
        → ((p : Bytes) (initiator : Bool)
            → allowed_protocol p n.proposed n.fallback ≡ true
            → n.build_config p initiator ≡ build p initiator)
        → ((p t : Bytes) → allowed_protocol p n.proposed n.fallback ≡ true → again p t ≡ again' p t)
        → initiator_react l b64 quoted n resp sent rneg rmsg transcript again
          ≡ initiator_react l b64 quoted other resp sent rneg rmsg transcript again'
    unfolding initiator_react other
    react_eq resp sent rneg rmsg transcript again again' agree loop =
        elim (Bool-cases (allowed_protocol resp.proto n.proposed n.fallback)) [
          | inr e ↦ simp e refl
          | inl e ↦ λ i.
              if equal resp.action act_reject
              then fail (text "noisesocket: peer rejected negotiation")
              else if equal resp.action act_retry
              then (if allowed_protocol resp.proto n.proposed n.fallback
                  then loop resp.proto (transcript ++ (sent ++ frame_bytes rneg rmsg)) e i
                  else fail (text "noisesocket: responder asked to retry with disallowed protocol"))
              else if equal resp.action act_switch
              then (if allowed_protocol resp.proto n.proposed n.fallback
                  then switch_eq resp.proto rneg rmsg (transcript ++ sent)
                      (agree resp.proto false e) i
                  else fail (text "noisesocket: responder asked to switch to disallowed protocol"))
              else fail (text "noisesocket: unexpected action in response")
        ]

    loop_eq :
        (k : ℕ) (proto transcript : Bytes)
        → ((p : Bytes) (initiator : Bool)
            → allowed_protocol p n.proposed n.fallback ≡ true
            → n.build_config p initiator ≡ build p initiator)
        → allowed_protocol proto n.proposed n.fallback ≡ true
        → initiator_loop l b64 quoted n k proto transcript
          ≡ initiator_loop l b64 quoted other k proto transcript
    unfolding initiator_loop other
    loop_eq zero proto transcript agree allowed = refl
    loop_eq (suc k) proto transcript agree allowed = λ i. do
      c ← gets (λ c. c)
      cfg ← wrapping "noisesocket: build config" (lift (agree proto true allowed i))
      let init_neg = encode_proposal b64 proto n.app_data
      h ← lift (new_hs l b64 quoted cfg (prologue_with l b64 quoted c init_neg transcript))
      ((msg1, cs), h') ← lift (first_message l b64 quoted h)
      guard (no_states l b64 quoted cs)
          (text "noisesocket: negotiation unsupported for single-message patterns")
      sent ← write_frame_and_record l b64 quoted init_neg msg1
      (rneg, rmsg) ← on_conn l read_handshake_frame
      if is_empty b64 rneg
          then drive_from l b64 quoted h' (l.messages cfg) true 1 (pending_of l b64 quoted rmsg)
          else do
            resp ← lift (parse_neg b64 rneg)
            react_eq resp sent rneg rmsg transcript (initiator_loop l b64 quoted n k)
                (initiator_loop l b64 quoted other k) agree (λ p t e. loop_eq k p t agree e) i

    -- An initiator never configures a protocol that is not the proposed one or one of its fallbacks:
    -- whatever the peer sends, the negotiation ends as it would with any other configurations of the
    -- protocols that are not allowed.
    pub negotiate_initiator_allowed :
        ((p : Bytes) (initiator : Bool)
          → allowed_protocol p n.proposed n.fallback ≡ true
          → n.build_config p initiator ≡ build p initiator)
        → negotiate_initiator l b64 quoted n ≡ negotiate_initiator l b64 quoted (building build n)
    unfolding negotiate_initiator allowed_protocol other
    negotiate_initiator_allowed agree =
        loop_eq max_neg_attempts n.proposed [] agree (simp (equal_refl n.proposed) refl)

    accept_eq :
        (proto ineg imsg transcript : Bytes)
        → n.build_config proto false ≡ build proto false
        → responder_accept l b64 quoted n proto ineg imsg transcript
          ≡ responder_accept l b64 quoted other proto ineg imsg transcript
    unfolding responder_accept other
    accept_eq proto ineg imsg transcript same = λ i. do
      c ← gets (λ c. c)
      cfg ← wrapping "noisesocket: build config" (lift (same i))
      h ← lift (new_hs l b64 quoted cfg (prologue_with l b64 quoted c ineg transcript))
      drive_from l b64 quoted h (l.messages cfg) false 0 (pending_of l b64 quoted imsg)

    turn_eq :
        (received transcript : Bytes)
        → ((p : Bytes) (initiator : Bool)
            → supports p n.supported ≡ true
            → n.build_config p initiator ≡ build p initiator)
        → responder_switch l b64 quoted n received transcript
          ≡ responder_switch l b64 quoted other received transcript
    unfolding responder_switch other supports
    turn_eq received transcript agree = elim (List-cases n.supported) [
      | inl e ↦ simp e refl
      | inr (x, xs, e) ↦
          let first : supports x n.supported ≡ true = simp (e, equal_refl x) refl in
          let same = agree x true first in
          rw e λ i. do
            c ← gets (λ c. c)
            target ← pure x
            cfg ← wrapping "noisesocket: build config" (lift (same i))
            let switch_neg = encode_response act_switch target []
            h ← lift (
                new_hs l b64 quoted cfg
                  (prologue_with l b64 quoted c switch_neg (transcript ++ received)))
            ((msg0, cs), h') ← lift (first_message l b64 quoted h)
            guard (no_states l b64 quoted cs)
                (text "noisesocket: switch unsupported for single-message patterns")
            write_frame_and_record l b64 quoted switch_neg msg0
            drive_from l b64 quoted h' (l.messages cfg) true 1 none
    ]

    policy_eq :
        (policy : Policy) (proto received transcript : Bytes)
        (again again' : Bytes → Action (Conn l) (Unit {0}))
        → ((p : Bytes) (initiator : Bool)
            → supports p n.supported ≡ true
            → n.build_config p initiator ≡ build p initiator)
        → ((t : Bytes) → again t ≡ again' t)
        → apply_policy l b64 quoted n policy proto received transcript again
          ≡ apply_policy l b64 quoted other policy proto received transcript again'
    unfolding apply_policy other responder_reject
    policy_eq policy_reject proto received transcript again again' agree loop = refl
    policy_eq unset proto received transcript again again' agree loop = refl
    policy_eq unknown proto received transcript again again' agree loop = refl
    policy_eq policy_switch proto received transcript again again' agree loop =
        turn_eq received transcript agree
    policy_eq policy_retry proto received transcript again again' agree loop = λ i. do
      target ← preferred l b64 quoted n n.supported
      sent ← write_frame_and_record l b64 quoted (encode_response act_retry target []) []
      loop (transcript ++ (received ++ sent)) i

    respond_eq :
        (k : ℕ) (proto ineg imsg transcript : Bytes)
        → ((p : Bytes) (initiator : Bool)
            → supports p n.supported ≡ true
            → n.build_config p initiator ≡ build p initiator)
        → ((t : Bytes) → responder_loop l b64 quoted n k t ≡ responder_loop l b64 quoted other k t)
        → (if supports proto n.supported
            then responder_accept l b64 quoted n proto ineg imsg transcript
            else apply_policy l b64 quoted n n.policy proto
                (frame_bytes ineg imsg)
                transcript
                (responder_loop l b64 quoted n k))
          ≡ (if supports proto n.supported
              then responder_accept l b64 quoted other proto ineg imsg transcript
              else apply_policy l b64 quoted other n.policy proto
                  (frame_bytes ineg imsg)
                  transcript
                  (responder_loop l b64 quoted other k))
    respond_eq k proto ineg imsg transcript agree loop =
        elim (Bool-cases (supports proto n.supported)) [
          | inl e ↦ simp e (accept_eq proto ineg imsg transcript (agree proto false e))
          | inr e ↦ simp e (
              policy_eq n.policy proto (frame_bytes ineg imsg) transcript
                (responder_loop l b64 quoted n k) (responder_loop l b64 quoted other k) agree loop)
        ]

    responder_eq :
        (k : ℕ) (transcript : Bytes)
        → ((p : Bytes) (initiator : Bool)
            → supports p n.supported ≡ true
            → n.build_config p initiator ≡ build p initiator)
        → responder_loop l b64 quoted n k transcript
          ≡ responder_loop l b64 quoted other k transcript
    unfolding responder_loop other
    responder_eq zero transcript agree = refl
    responder_eq (suc k) transcript agree = λ i. do
      (ineg, imsg) ← on_conn l read_handshake_frame
      prop ← lift (parse_neg b64 ineg)
      guard (is_empty b64 prop.action) (text "noisesocket: initiator sent unexpected action")
      respond_eq k prop.proto ineg imsg transcript agree (λ t. responder_eq k t agree) i

    -- A responder never configures a protocol that it does not support: whatever the peer sends, the
    -- negotiation ends as it would with any other configurations of the protocols that are not
    -- supported.
    pub negotiate_responder_supported :
        ((p : Bytes) (initiator : Bool)
          → supports p n.supported ≡ true
          → n.build_config p initiator ≡ build p initiator)
        → negotiate_responder l b64 quoted n ≡ negotiate_responder l b64 quoted (building build n)
    unfolding negotiate_responder other
    negotiate_responder_supported agree = responder_eq max_neg_attempts [] agree
