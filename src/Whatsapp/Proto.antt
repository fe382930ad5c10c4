-- ===== src/Whatsapp/Proto.antt =====
-- pkg/transport/whatsapp/proto.go: the protobuf codec of the handshake messages. A nil slice is
-- `none`, so that an absent field and an empty one differ as they do in the source.
pub mod Field
pub mod Encoded
pub mod RoundTrip
pub mod Bounds
use noisecat.Base.{
  ℕ, zero, suc, ◌+◌, ◌*◌, ◌/◌, ◌%◌, ◌^◌, ◌++◌, not, ◌&&◌, Option, none, some, List, [], ◌∷◌, Bytes,
  length, take, drop, ◌==◌, ltb, leb, if◌then◌else◌, Error, text, panics, Result, ok, err,
}
use noisecat.Results.{◌>>=◌, ◌>>◌, require, or_err}
use noisecat.Whatsapp.Varint.{append_varint, uvarint}

-- `uint64(field)<<3|2` and the value behind its length.
unfoldable pub append_bytes_field : Bytes → ℕ → Bytes → Bytes
append_bytes_field b field val =
    append_varint (append_varint b ((field * 8 + 2) % 2 ^ 64)) (length val) ++ val

unfoldable pub append_varint_field : Bytes → ℕ → ℕ → Bytes
append_varint_field b field v = append_varint (append_varint b (field * 8 % 2 ^ 64)) v

pub record PbField : Type 0 where
  pub num : ℕ
  pub wire : ℕ
  pub bytes : Option Bytes
  pub val : ℕ

abbrev pub max_pb_fields : ℕ
max_pb_fields = 64

-- The cases of the switch, each on what follows the tag: the field, if it is kept, and the rest.
unfoldable pub read_varint_field : ℕ → Bytes → Result (Option PbField × Bytes)
read_varint_field num b = do
  (v, rest) ← or_err (uvarint b) (text "whatsapp: malformed protobuf varint")
  ok (some (record { num = num; wire = 0; bytes = none; val = v }), rest)

unfoldable pub read_len_field : ℕ → Bytes → Result (Option PbField × Bytes)
read_len_field num b = do
  (l, rest) ← or_err (uvarint b) (text "whatsapp: malformed protobuf length")
  require (not (ltb (length rest) l)) (text "whatsapp: protobuf length exceeds buffer")
  ok (some (record { num = num; wire = 2; bytes = some (take l rest); val = 0 }), drop l rest)

unfoldable pub skip_field : ℕ → Error → Bytes → Result (Option PbField × Bytes)
skip_field n e b = if ltb (length b) n then err e else ok (none, drop n b)

unfoldable pub read_value : ℕ → ℕ → Bytes → Result (Option PbField × Bytes)
unfolding read_varint_field read_len_field skip_field
read_value num wire b =
    if wire == 0
    then read_varint_field num b
    else if wire == 2
    then read_len_field num b
    else if wire == 5
    then skip_field 4 (text "whatsapp: truncated 32-bit field") b
    else if wire == 1
    then skip_field 8 (text "whatsapp: truncated 64-bit field") b
    else err (text "whatsapp: unsupported protobuf wire type")

unfoldable pub read_field : Bytes → Result (Option PbField × Bytes)
read_field b = do
  (tag, rest) ← or_err (uvarint b) (text "whatsapp: malformed protobuf tag")
  read_value (tag / 8) (tag % 8) rest

abbrev pub keep : List PbField → Option PbField → List PbField
keep out none = out
keep out (some f) = out ++ f ∷ []

-- The loop over what is left of the input. Each round takes a byte at least, so that as many rounds
-- as there are bytes are enough.
unfoldable pub pb_loop : ℕ → List PbField → Bytes → Result (List PbField)
pb_loop fuel out [] = ok out
pb_loop zero out (c ∷ b) = err (panics "out of fuel")
pb_loop (suc fuel) out (c ∷ b) =
    if leb max_pb_fields (length out)
    then err (text "whatsapp: too many protobuf fields")
    else elim (read_field (c ∷ b)) [ ok (f, rest) ↦ pb_loop fuel (keep out f) rest | err e ↦ err e ]

unfoldable pub pb_parse : Bytes → Result (List PbField)
pb_parse b = pb_loop (length b) [] b

unfoldable pub nested_bytes : List PbField → ℕ → Option Bytes
nested_bytes [] num = none
nested_bytes (f ∷ fs) num =
    let rest = nested_bytes fs num in if f.num == num && f.wire == 2 then f.bytes else rest

unfoldable pub marshal_client_hello : Bytes → Bytes
marshal_client_hello ephemeral =
    append_bytes_field [] Field.client_hello (append_bytes_field [] Field.hello_ephemeral ephemeral)

unfoldable pub marshal_client_finish : Bytes → Bytes → Bytes
marshal_client_finish static payload =
    let inner = append_bytes_field [] Field.finish_static static in
    append_bytes_field [] Field.client_finish
      (append_bytes_field inner Field.finish_payload payload)

unfoldable pub marshal_server_hello : Bytes → Bytes → Bytes → Bytes
marshal_server_hello ephemeral static payload =
    let e = append_bytes_field [] Field.hello_ephemeral ephemeral in
    let s = append_bytes_field e Field.hello_static static in
    append_bytes_field [] Field.server_hello (append_bytes_field s Field.hello_payload payload)

-- A slice that may be nil, as its elements.
abbrev pub elements : Option Bytes → Bytes
elements none = []
elements (some b) = b

-- `len` of a slice that may be nil.
abbrev pub len : Option Bytes → ℕ
len none = 0
len (some b) = length b

sized_ephemeral : Option Bytes → Result Bytes
sized_ephemeral none = err (text "whatsapp: clientHello ephemeral is not 32 bytes")
sized_ephemeral (some e) =
    if length e == 32 then ok e else err (text "whatsapp: clientHello ephemeral is not 32 bytes")

unfoldable pub unmarshal_client_hello : Bytes → Result Bytes
unfolding sized_ephemeral
unmarshal_client_hello b = do
  top ← pb_parse b
  ch ←
      or_err (nested_bytes top Field.client_hello)
        (text "whatsapp: handshake message has no clientHello")
  fields ← pb_parse ch
  sized_ephemeral (nested_bytes fields Field.hello_ephemeral)

-- The static key, and the payload, which may be nil.
unfoldable pub unmarshal_client_finish : Bytes → Result (Bytes × Option Bytes)
unmarshal_client_finish b = do
  top ← pb_parse b
  cf ←
      or_err (nested_bytes top Field.client_finish)
        (text "whatsapp: handshake message has no clientFinish")
  fields ← pb_parse cf
  static ←
      or_err (nested_bytes fields Field.finish_static)
        (text "whatsapp: clientFinish missing static")
  ok (static, nested_bytes fields Field.finish_payload)

pub record ServerHello : Type 0 where
  pub ephemeral : Bytes
  pub static : Bytes
  pub payload : Bytes

missing_hello : Error
missing_hello = text "whatsapp: serverHello missing ephemeral/static/payload"

server_hello_of : Option Bytes → Option Bytes → Option Bytes → Result ServerHello
unfolding missing_hello
server_hello_of (some e) (some s) (some p) =
    if length e == 32
    then ok (record { ephemeral = e; static = s; payload = p })
    else err missing_hello
server_hello_of _ _ _ = err missing_hello

unfoldable pub unmarshal_server_hello : Bytes → Result ServerHello
unfolding server_hello_of
unmarshal_server_hello b = do
  top ← pb_parse b
  sh ←
      or_err (nested_bytes top Field.server_hello)
        (text "whatsapp: handshake response has no serverHello")
  fields ← pb_parse sh
  server_hello_of (nested_bytes fields Field.hello_ephemeral)
      (nested_bytes fields Field.hello_static) (nested_bytes fields Field.hello_payload)
