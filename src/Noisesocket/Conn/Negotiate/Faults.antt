-- ===== src/Noisesocket/Conn/Negotiate/Faults.antt =====
-- A responder with a policy and no supported protocol.
use noisecat.Base.{
  ◌≡◌, ◌⊎◌, inl, inr, refl, [], Bytes, ok, ret, raise, panics, ◌>>=◌, ◌>>◌, guard, lift, Stream,
}
use noisecat.Flynn.{NoiseLibrary}
use noisecat.Noisesocket.Framing.{read_handshake_frame}
use noisecat.Noisesocket.Neg.{Base64, NegMsg, parse_neg, supports}
use noisecat.Noisesocket.Conn.{Conn, on_conn}
use noisecat.Noisesocket.Conn.Negotiate.{
  policy_retry, policy_switch, Negotiation, responder_switch, apply_policy, responder_loop,
  negotiate_responder,
}

module _ (l : NoiseLibrary) (b64 : Base64) (quoted : Bytes → Bytes) where
  -- A responder whose list of supported protocols is empty and whose policy is to retry or to switch
  -- panics on every well-formed proposal.
  pub negotiate_responder_empty :
      (n : Negotiation l b64 quoted) (c : Conn l) (neg msg : Bytes) (rest : Stream) (m : NegMsg)
      → n.supported ≡ []
      → (n.policy ≡ policy_retry) ⊎ (n.policy ≡ policy_switch)
      → read_handshake_frame c.conn ≡ ret (neg, msg) rest
      → parse_neg b64 neg ≡ ok m
      → m.action ≡ []
      → negotiate_responder l b64 quoted n c
        ≡ raise (panics "index out of range [0] with length 0") (record c { conn = rest })
  unfolding negotiate_responder responder_loop supports apply_policy responder_switch
  negotiate_responder_empty n c neg msg rest m empty (inl policy) frame parsed proposal =
      simp (empty, policy, frame, parsed, proposal, on_conn, ◌>>=◌, ◌>>◌, guard, lift) refl
  negotiate_responder_empty n c neg msg rest m empty (inr policy) frame parsed proposal =
      simp (empty, policy, frame, parsed, proposal, on_conn, ◌>>=◌, ◌>>◌, guard, lift) refl
