-- ===== src/Noisesocket/Neg.antt =====
-- pkg/transport/noisesocket/negotiation.go: the negotiation data. Strings are their bytes; `encode`
-- and `decode` are base64.StdEncoding's.
pub mod RoundTrip
use noisecat.Base.{
  ℕ, ◌++◌, Bool, true, false, not, ◌&&◌, ◌||◌, Option, none, some, List, [], ◌∷◌, Bytes, length,
  equal, ltb, ◌==◌, if◌then◌else◌, text, wrap, Result, ok, err,
}
use noisecat.Results.{◌>>=◌, ◌>>◌, require, or_err}

pub record Base64 : Type 0 where
  pub encode : Bytes → Bytes
  pub decode : Bytes → Result Bytes

abbrev pub max_neg_attempts : ℕ
max_neg_attempts = 4

abbrev pub neg_version : Bytes
neg_version = b'1' ∷ []

abbrev pub act_reject : Bytes
act_reject = b'r' ∷ b'e' ∷ b'j' ∷ b'e' ∷ b'c' ∷ b't' ∷ []

abbrev pub act_retry : Bytes
act_retry = b'r' ∷ b'e' ∷ b't' ∷ b'r' ∷ b'y' ∷ []

abbrev pub act_switch : Bytes
act_switch = b's' ∷ b'w' ∷ b'i' ∷ b't' ∷ b'c' ∷ b'h' ∷ []

-- The keys of the fields: "ns", "action", "proto", "reason", "data".
abbrev pub key_ns : Bytes
key_ns = b'n' ∷ b's' ∷ []

abbrev pub key_action : Bytes
key_action = b'a' ∷ b'c' ∷ b't' ∷ b'i' ∷ b'o' ∷ b'n' ∷ []

abbrev pub key_proto : Bytes
key_proto = b'p' ∷ b'r' ∷ b'o' ∷ b't' ∷ b'o' ∷ []

abbrev pub key_reason : Bytes
key_reason = b'r' ∷ b'e' ∷ b'a' ∷ b's' ∷ b'o' ∷ b'n' ∷ []

abbrev pub key_data : Bytes
key_data = b'd' ∷ b'a' ∷ b't' ∷ b'a' ∷ []

pub record NegMsg : Type 0 where
  pub action : Bytes
  pub proto : Bytes
  pub reason : Bytes
  pub app_data : Bytes

abbrev pub no_msg : NegMsg
no_msg = record { action = []; proto = []; reason = []; app_data = [] }

-- `key=value`
abbrev pub field : Bytes → Bytes → Bytes
field k v = k ++ b'=' ∷ v

unfoldable pub encode_response : Bytes → Bytes → Bytes → Bytes
encode_response action proto reason =
    (field key_ns neg_version ++ b';' ∷ field key_action action)
    ++ ((if ltb 0 (length proto) then b';' ∷ field key_proto proto else [])
        ++ (if ltb 0 (length reason) then b';' ∷ field key_reason reason else []))

-- strings.Split(s, ";")
unfoldable pub split : Bytes → Bytes → List Bytes
split so_far [] = so_far ∷ []
split so_far (c ∷ cs) =
    let same = split (so_far ++ c ∷ []) cs in
    let next = split [] cs in if c == b';' then so_far ∷ next else same

-- strings.Cut(s, "=")
unfoldable pub cut_at : Bytes → Bytes → Option (Bytes × Bytes)
cut_at so_far [] = none
cut_at so_far (c ∷ cs) =
    let more = cut_at (so_far ++ c ∷ []) cs in if c == b'=' then some (so_far, cs) else more

abbrev pub is_action : Bytes → Bool
is_action v = equal v act_reject || equal v act_retry || equal v act_switch

-- slices.Contains
abbrev pub contains : List Bytes → Bytes → Bool
contains [] name = false
contains (x ∷ xs) name = equal x name || contains xs name

-- allowedProtocol
unfoldable pub allowed_protocol : Bytes → Bytes → List Bytes → Bool
allowed_protocol name proposed fallback = equal name proposed || contains fallback name

-- supports
unfoldable pub supports : Bytes → List Bytes → Bool
supports name supported = contains supported name

module _ (b64 : Base64) where
  open b64 use {encode, decode}

  unfoldable pub encode_proposal : Bytes → Bytes → Bytes
  encode_proposal proto app_data =
      (field key_ns neg_version ++ b';' ∷ field key_proto proto)
      ++ (if ltb 0 (length app_data) then b';' ∷ field key_data (encode app_data) else [])

  -- The switch on a field's key: the message and whether a version was seen.
  unfoldable pub set_field : Bytes → Bytes → NegMsg × Bool → Result (NegMsg × Bool)
  set_field k v st =
      if equal k key_ns
      then (if equal v neg_version
          then ok (st.0, true)
          else err (text "noisesocket: unsupported negotiation version"))
      else if equal k key_action
      then (if is_action v
          then ok (record st.0 { action = v }, st.1)
          else err (text "noisesocket: unknown negotiation action"))
      else if equal k key_proto
      then ok (record st.0 { proto = v }, st.1)
      else if equal k key_reason
      then ok (record st.0 { reason = v }, st.1)
      else if equal k key_data
      then elim (decode v) [
        | ok d ↦ ok (record st.0 { app_data = d }, st.1)
        | err e ↦ err (wrap "noisesocket: invalid data field" e)
      ]
      else ok st

  abbrev pub read_field : Bytes → NegMsg × Bool → Result (NegMsg × Bool)
  read_field [] st = ok st
  read_field (c ∷ cs) st = do
    kv ← or_err (cut_at [] (c ∷ cs)) (text "noisesocket: malformed negotiation field")
    set_field kv.0 kv.1 st

  unfoldable pub read_fields : List Bytes → NegMsg × Bool → Result (NegMsg × Bool)
  read_fields [] st = ok st
  read_fields (f ∷ fs) st = do st' ← read_field f st; read_fields fs st'

  abbrev pub is_empty : Bytes → Bool
  is_empty [] = true
  is_empty (c ∷ cs) = false

  -- The checks behind the loop.
  unfoldable pub check_msg : NegMsg × Bool → Result NegMsg
  check_msg st = do
    require (st.1) (text "noisesocket: negotiation_data missing ns= version")
    require (not (is_empty st.0.action && is_empty st.0.proto))
        (text "noisesocket: proposal missing proto=")
    require
        (not ((equal st.0.action act_retry || equal st.0.action act_switch) && is_empty st.0.proto))
        (text "noisesocket: action missing proto=")
    ok st.0

  unfoldable pub parse_neg : Bytes → Result NegMsg
  parse_neg raw = do
    require (not (is_empty raw)) (text "noisesocket: empty negotiation_data")
    st ← read_fields (split [] raw) (no_msg, false)
    check_msg st
