-- ===== src/Noisesocket/Neg/RoundTrip.antt =====
-- Parsing the negotiation data that negotiation.go encodes.
use noisecat.Base.{
  ℕ, ◌<◌, ◌++◌, ◌≡◌, ◌∙◌, ap, refl, arith, false, List, [], ◌∷◌, Bytes, length, All, ◌==◌, lt→ltb,
  append_assoc, append-nil, ok,
}
use noisecat.Results.{◌>>=◌}
use noisecat.Noisesocket.Neg.{
  key_action, encode_response, act_switch, act_retry, no_msg, Base64, field, key_ns, key_proto,
  key_data, neg_version, split, cut_at, set_field, read_fields, check_msg, encode_proposal,
  parse_neg,
}

-- A value that keeps the fields apart.
abbrev pub IsPlain : Bytes → Type 0
IsPlain v = All (λ b. (b == b';') ≡ false) v

split_plain :
    (f so_far rest : Bytes)
    → IsPlain f
    → split so_far (f ++ b';' ∷ rest) ≡ (so_far ++ f) ∷ split [] rest
unfolding split
split_plain [] so_far rest h = simp append-nil refl
split_plain (c ∷ f) so_far rest (h, hs) =
    simp (h, split_plain f (so_far ++ c ∷ []) rest hs, append_assoc) refl

split_last : (f so_far : Bytes) → IsPlain f → split so_far f ≡ (so_far ++ f) ∷ []
unfolding split
split_last [] so_far h = simp append-nil refl
split_last (c ∷ f) so_far (h, hs) = simp (h, split_last f (so_far ++ c ∷ []) hs, append_assoc) refl

IsPlain-append : (a b : Bytes) → IsPlain a → IsPlain b → IsPlain (a ++ b)
IsPlain-append [] b ha hb = hb
IsPlain-append (x ∷ a) b (h, ha) hb = (h, IsPlain-append a b ha hb)

version-IsPlain : IsPlain (field key_ns neg_version)
version-IsPlain = (refl, (refl, (refl, (refl, tt))))

proto-IsPlain : (v : Bytes) → IsPlain v → IsPlain (field key_proto v)
proto-IsPlain v h = (refl, (refl, (refl, (refl, (refl, (refl, h))))))

action-IsPlain : (v : Bytes) → IsPlain v → IsPlain (field key_action v)
action-IsPlain v h = (refl, (refl, (refl, (refl, (refl, (refl, (refl, h)))))))

data-IsPlain : (v : Bytes) → IsPlain v → IsPlain (field key_data v)
data-IsPlain v h = (refl, (refl, (refl, (refl, (refl, h)))))

-- The documented behaviour of the encoding: its alphabet has no semicolon, and it is decoded again.
pub record IsCodec (b64 : Base64) : Type 0 where
  pub encode-IsPlain : (b : Bytes) → IsPlain (b64.encode b)
  pub decode-encode : (b : Bytes) → b64.decode (b64.encode b) ≡ ok b

module _ (b64 : Base64) (codec : IsCodec b64) where
  open b64 use {encode}
  open codec use {encode-IsPlain, decode-encode}

  abbrev version : Bytes
  version = field key_ns neg_version

  proposal_fields :
      (v payload : Bytes)
      → IsPlain v
      → 0 < length payload
      → split [] (encode_proposal b64 v payload)
        ≡ version ∷ field key_proto v ∷ field key_data (encode payload) ∷ []
  unfolding encode_proposal
  proposal_fields v [] plain some_bytes = absurd (omega arith)
  proposal_fields v (b ∷ payload) plain some_bytes =
      let data_field = field key_data (encode (b ∷ payload)) in
      let whole : encode_proposal b64 v (b ∷ payload)
          ≡ (version ++ b';' ∷ field key_proto v) ++ b';' ∷ data_field =
        rw (encode_proposal, lt→ltb 0 (length (b ∷ payload)) some_bytes) refl in
      ap (split []) (whole ∙ append_assoc version (b';' ∷ field key_proto v) (b';' ∷ data_field))
      ∙ split_plain version [] (field key_proto v ++ b';' ∷ data_field) version-IsPlain
      ∙ ap (λ x. version ∷ x)
          (split_plain (field key_proto v) [] data_field (proto-IsPlain v plain)
            ∙ ap (λ x. field key_proto v ∷ x)
                (split_last data_field [] (data-IsPlain _ (encode-IsPlain (b ∷ payload)))))

  bare_fields :
      (v : Bytes)
      → IsPlain v
      → split [] (encode_proposal b64 v []) ≡ version ∷ field key_proto v ∷ []
  unfolding encode_proposal
  bare_fields v plain =
      ap (split []) (append-nil (version ++ b';' ∷ field key_proto v))
      ∙ split_plain version [] (field key_proto v) version-IsPlain
      ∙ ap (λ x. version ∷ x) (split_last (field key_proto v) [] (proto-IsPlain v plain))

  parse_fields :
      (raw : Bytes) (fs : List Bytes)
      → 0 < length raw
      → split [] raw ≡ fs
      → parse_neg b64 raw ≡ (read_fields b64 fs (no_msg, false) >>= check_msg b64)
  unfolding parse_neg
  parse_fields [] fs h e = absurd (omega arith)
  parse_fields (c ∷ raw) fs h e = simp (e, parse_neg) refl

  proposal_starts : (v payload : Bytes) → 0 < length (encode_proposal b64 v payload)
  unfolding encode_proposal
  proposal_starts v payload = omega arith

  -- A proposal is parsed as the protocol, which has a byte and no semicolon, and the payload, which
  -- may be anything.
  pub parse_neg-encode_proposal :
      (c : ℕ) (name payload : Bytes)
      → IsPlain (c ∷ name)
      → parse_neg b64 (encode_proposal b64 (c ∷ name) payload)
        ≡ ok (record { action = []; proto = c ∷ name; reason = []; app_data = payload })
  unfolding read_fields set_field check_msg cut_at
  parse_neg-encode_proposal c name [] plain =
      parse_fields (encode_proposal b64 (c ∷ name) []) _ (proposal_starts (c ∷ name) [])
        (bare_fields (c ∷ name) plain)
      ∙ refl
  parse_neg-encode_proposal c name (b ∷ payload) plain =
      parse_fields (encode_proposal b64 (c ∷ name) (b ∷ payload)) _
        (proposal_starts (c ∷ name) (b ∷ payload))
        (proposal_fields (c ∷ name) (b ∷ payload) plain (omega arith))
      ∙ simp (decode-encode (b ∷ payload)) refl

  response_fields :
      (act v : Bytes)
      → IsPlain act
      → IsPlain v
      → 0 < length v
      → split [] (encode_response act v [])
        ≡ version ∷ field key_action act ∷ field key_proto v ∷ []
  unfolding encode_response
  response_fields act v plain plain' some_bytes =
      let whole : encode_response act v []
          ≡ (version ++ b';' ∷ field key_action act) ++ b';' ∷ field key_proto v =
        rw (encode_response, lt→ltb 0 (length v) some_bytes)
          (ap (λ x. (version ++ b';' ∷ field key_action act) ++ b';' ∷ x)
            (append-nil (field key_proto v))) in
      ap (split [])
        (whole ∙ append_assoc version (b';' ∷ field key_action act) (b';' ∷ field key_proto v))
      ∙ split_plain version [] (field key_action act ++ b';' ∷ field key_proto v) version-IsPlain
      ∙ ap (λ x. version ∷ x)
          (split_plain (field key_action act) [] (field key_proto v) (action-IsPlain act plain)
            ∙ ap (λ x. field key_action act ∷ x)
                (split_last (field key_proto v) [] (proto-IsPlain v plain')))

  response_starts : (act v : Bytes) → 0 < length (encode_response act v [])
  unfolding encode_response
  response_starts act v = omega arith

  -- A response that asks for a retry or a switch is parsed as the action and the protocol, which has
  -- a byte and no semicolon.
  pub parse_neg-encode_response :
      (c : ℕ) (name : Bytes)
      → IsPlain (c ∷ name)
      → (parse_neg b64 (encode_response act_retry (c ∷ name) [])
          ≡ ok (record { action = act_retry; proto = c ∷ name; reason = []; app_data = [] }))
        × (parse_neg b64 (encode_response act_switch (c ∷ name) [])
            ≡ ok (record { action = act_switch; proto = c ∷ name; reason = []; app_data = [] }))
  unfolding read_fields set_field check_msg cut_at
  parse_neg-encode_response c name plain = (
    parse_fields (encode_response act_retry (c ∷ name) []) _ (response_starts act_retry (c ∷ name))
        (response_fields act_retry (c ∷ name) (refl, (refl, (refl, (refl, (refl, tt))))) plain
          (omega arith)),
    parse_fields (encode_response act_switch (c ∷ name) []) _
        (response_starts act_switch (c ∷ name))
        (response_fields act_switch (c ∷ name) (refl, (refl, (refl, (refl, (refl, (refl, tt))))))
          plain (omega arith)),
  )
