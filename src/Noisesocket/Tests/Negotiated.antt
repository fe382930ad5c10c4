-- ===== src/Noisesocket/Tests/Negotiated.antt =====
-- The theorems on the negotiation layer at concrete inputs.
use noisecat.Base.{
  ℕ, ◌≤◌, some, if◌then◌else◌, ◌++◌, ◌≡◌, refl, ap, arith, true, false, none, [], ◌∷◌, Bytes,
  length, ret, open_stream, ok, Bool, ◌||◌, Result, err, text, equal, equal_iff, Bool-cases, inl,
  inr, bytes_of, Stream, raise, panics, read_full,
}
use noisecat.Flynn.Toy.{toy, toy-IsHandshake, toy_talk, toy_some_bytes}
use noisecat.Noisesocket.Framing.{read_handshake_frame, read_length_prefixed}
use noisecat.Noisesocket.Neg.{
  act_retry, act_switch, encode_response, encode_proposal, parse_neg, allowed_protocol, supports,
  read_fields, set_field, check_msg, cut_at, split,
}
use noisecat.Noisesocket.Conn.Negotiate.Accepted.{negotiation_accepted}
use noisecat.Noisesocket.Conn.Negotiate.Retried.{negotiation_retried}
use noisecat.Noisesocket.Conn.{Conn, client, server}
use noisecat.Noisesocket.Conn.Rounds.{shaking}
use noisecat.Noisesocket.Conn.Handshake.{done}
use noisecat.Noisesocket.Conn.Negotiate.{
  Negotiation, policy_switch, policy_retry, negotiate_initiator, negotiate_responder, handshake_any,
}
use noisecat.Noisesocket.Conn.Negotiate.Adoption.{
  building, negotiate_initiator_allowed, negotiate_responder_supported,
}
use noisecat.Noisesocket.Conn.Negotiate.Faults.{negotiate_responder_empty}
use noisecat.Noisesocket.Conn.Negotiate.Switched.{negotiation_switched}
use noisecat.Noisesocket.Tests.{hello, toy_code, toy_code-IsCodec}

-- A negotiation of two protocols, on a library of two messages.
abbrev nn : Bytes
nn = b'N' ∷ b'N' ∷ []

abbrev proposes : Negotiation toy toy_code (λ x. x)
proposes = record {
  build_config = λ name initiator. ok 2;
  app_data = [];
  proposed = nn;
  fallback = [];
  supported = nn ∷ [];
  policy = policy_switch;
}

nn_fits : length (encode_proposal toy_code nn []) ≤ 0xFFFF
unfolding encode_proposal
nn_fits = omega arith

nn_supported : supports nn (nn ∷ []) ≡ true
unfolding supports
nn_supported = refl

negotiation_accepted_example :
    (m n : Bytes) × (ha hb : ℕ) × (p : ℕ × ℕ) × ((rest o : Bytes)
      → handshake_any toy toy_code
          (λ x. x)
          (some proposes)
          (client toy (open_stream (n ++ rest) o) 0 [] hello)
        ≡ ret tt (done toy (shaking toy (open_stream rest (o ++ m)) true 0 [] hello ha (some p))))
    × ((rest o : Bytes)
        → handshake_any toy toy_code
            (λ x. x)
            (some proposes)
            (server toy (open_stream (m ++ rest) o) 0 [] hello)
          ≡ ret tt
              (done toy (shaking toy (open_stream rest (o ++ n)) false 0 [] hello hb (some p))))
negotiation_accepted_example =
    negotiation_accepted toy toy_code (λ x. x) toy-IsHandshake b'N' (b'N' ∷ []) [] nn_fits 0 0 0
      toy_talk proposes proposes 2 2 0 hello hello toy_code-IsCodec (refl, (refl, tt)) refl refl
      nn_supported refl refl refl refl refl refl (toy_some_bytes _) (toy_some_bytes _)

-- The responder supports "NK" only, which is the initiator's fallback.
abbrev nk : Bytes
nk = b'N' ∷ b'K' ∷ []

abbrev falls_back : Negotiation toy toy_code (λ x. x)
falls_back = record proposes { fallback = nk ∷ [] }

abbrev asks_again : Negotiation toy toy_code (λ x. x)
asks_again = record proposes { supported = nk ∷ []; policy = policy_retry }

nk_fits :
    (length (encode_proposal toy_code nk []) ≤ 0xFFFF)
    × (length (encode_response act_retry nk []) ≤ 0xFFFF)
unfolding encode_proposal encode_response
nk_fits = omega arith

nk_allowed : (allowed_protocol nk nn (nk ∷ []) ≡ true) × (supports nn (nk ∷ []) ≡ false)
unfolding allowed_protocol supports
nk_allowed = (refl, refl)

negotiation_retried_example :
    (m n : Bytes) × (ha hb : ℕ) × (p : ℕ × ℕ) × ((rest o : Bytes)
      → handshake_any toy toy_code
          (λ x. x)
          (some falls_back)
          (client toy (open_stream (n ++ rest) o) 0 [] hello)
        ≡ ret tt (done toy (shaking toy (open_stream rest (o ++ m)) true 0 [] hello ha (some p))))
    × ((rest o : Bytes)
        → handshake_any toy toy_code
            (λ x. x)
            (some asks_again)
            (server toy (open_stream (m ++ rest) o) 0 [] hello)
          ≡ ret tt
              (done toy (shaking toy (open_stream rest (o ++ n)) false 0 [] hello hb (some p))))
negotiation_retried_example =
    negotiation_retried toy toy_code (λ x. x) b'N' b'N' (b'N' ∷ []) (b'K' ∷ []) [] (0 ∷ []) nn_fits
      nk_fits.1 (omega arith) nk_fits.0 toy-IsHandshake falls_back asks_again [] 2 2 2 0 hello hello
      0 1 0 0 0 toy_code-IsCodec (refl, (refl, tt)) (refl, (refl, tt)) refl refl nk_allowed.0 refl
      nk_allowed.1 refl refl refl refl refl refl refl refl refl refl toy_talk (toy_some_bytes _)
      (toy_some_bytes _)

abbrev only_nn : Bytes → Bool → Result ℕ
only_nn name initiator = if equal name nn then ok 2 else err (text "unknown protocol")

only_nn_allowed :
    (p : Bytes) (initiator : Bool)
    → (equal p nn || false) ≡ true
    → ◌≡◌ {A = Result ℕ} (ok 2) (only_nn p initiator)
only_nn_allowed p initiator h = elim (Bool-cases (equal p nn)) [
  | inl e ↦ simp e refl
  | inr e ↦ absurd (cc (simp e at h))
]

allowed_nn :
    (p : Bytes) (initiator : Bool)
    → allowed_protocol p nn [] ≡ true
    → ◌≡◌ {A = Result ℕ} (ok 2) (only_nn p initiator)
unfolding allowed_protocol
allowed_nn p initiator h = only_nn_allowed p initiator h

negotiate_initiator_allowed_example :
    negotiate_initiator toy toy_code (λ x. x) proposes
    ≡ negotiate_initiator toy toy_code (λ x. x) (building toy toy_code (λ x. x) only_nn proposes)
negotiate_initiator_allowed_example =
    negotiate_initiator_allowed toy toy_code (λ x. x) proposes only_nn allowed_nn

supported_nn :
    (p : Bytes) (initiator : Bool)
    → supports p (nn ∷ []) ≡ true
    → ◌≡◌ {A = Result ℕ} (ok 2) (only_nn p initiator)
unfolding supports
supported_nn p initiator h = elim (Bool-cases (equal nn p)) [
  | inl e ↦ ap (λ x. only_nn x initiator) (equal_iff nn p e)
  | inr e ↦ absurd (cc (simp e at h))
]

negotiate_responder_supported_example :
    negotiate_responder toy toy_code (λ x. x) proposes
    ≡ negotiate_responder toy toy_code (λ x. x) (building toy toy_code (λ x. x) only_nn proposes)
negotiate_responder_supported_example =
    negotiate_responder_supported toy toy_code (λ x. x) proposes only_nn supported_nn

-- A responder that supports nothing, on a proposal of "NN".
abbrev supports_none : Negotiation toy toy_code (λ x. x)
supports_none = record proposes { supported = [] }

abbrev nn_proposal : Bytes
nn_proposal = bytes_of "ns=1;proto=NN"

nn_parsed :
    parse_neg toy_code nn_proposal
    ≡ ok (record { action = []; proto = nn; reason = []; app_data = [] })
unfolding parse_neg read_fields set_field check_msg cut_at split
nn_parsed = refl

abbrev server_of : Stream → Conn toy
server_of s = record {
  conn = s;
  is_client = false;
  cfg = 2;
  initial_neg_data = [];
  app_prologue = [];
  hs = none;
  handshake_done = false;
  cs_in = none;
  cs_out = none;
  input_buffer = [];
}

abbrev nn_frame : Bytes
nn_frame = 0 ∷ 13 ∷ (nn_proposal ++ (0 ∷ 1 ∷ 7 ∷ []))

nn_read :
    read_handshake_frame (open_stream nn_frame []) ≡ ret (nn_proposal, 7 ∷ []) (open_stream [] [])
unfolding read_handshake_frame read_length_prefixed read_full
nn_read = refl

negotiate_responder_empty_example :
    negotiate_responder toy toy_code (λ x. x) supports_none (server_of (open_stream nn_frame []))
    ≡ raise (panics "index out of range [0] with length 0") (server_of (open_stream [] []))
negotiate_responder_empty_example =
    negotiate_responder_empty toy toy_code (λ x. x) supports_none
      (server_of (open_stream nn_frame [])) nn_proposal (7 ∷ []) (open_stream [] [])
      (record { action = []; proto = nn; reason = []; app_data = [] }) refl (inr refl) nn_read
      nn_parsed refl

-- The responder prefers "NK" and becomes the initiator.
abbrev takes_over : Negotiation toy toy_code (λ x. x)
takes_over = record proposes { supported = nk ∷ [] }

switch_fits : length (encode_response act_switch nk []) ≤ 0xFFFF
unfolding encode_response
switch_fits = omega arith

negotiation_switched_example :
    (m n : Bytes) × (ha hb : ℕ) × (p : ℕ × ℕ) × ((rest o : Bytes)
      → handshake_any toy toy_code
          (λ x. x)
          (some falls_back)
          (client toy (open_stream (n ++ rest) o) 0 [] hello)
        ≡ ret tt (done toy (shaking toy (open_stream rest (o ++ m)) true 0 [] hello ha (some p))))
    × ((rest o : Bytes)
        → handshake_any toy toy_code
            (λ x. x)
            (some takes_over)
            (server toy (open_stream (m ++ rest) o) 0 [] hello)
          ≡ ret tt
              (done toy (shaking toy (open_stream rest (o ++ n)) false 0 [] hello hb (some p))))
negotiation_switched_example =
    negotiation_switched toy toy_code (λ x. x) toy-IsHandshake b'N' b'N' (b'N' ∷ []) (b'K' ∷ []) []
      (0 ∷ []) nn_fits switch_fits (omega arith) falls_back takes_over [] 2 2 2 0 hello hello 0 1 0
      0 0 toy_code-IsCodec (refl, (refl, tt)) (refl, (refl, tt)) refl refl nk_allowed.0 refl
      nk_allowed.1 refl refl refl refl refl refl refl refl refl refl toy_talk (toy_some_bytes _)
