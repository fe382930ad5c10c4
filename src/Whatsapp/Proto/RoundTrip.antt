-- ===== src/Whatsapp/Proto/RoundTrip.antt =====
-- The messages of proto.go: reading back what the other side writes, and how long it is.
use noisecat.Base.{
  ℕ, ◌+◌, ◌^◌, ◌<◌, ◌≤◌, ◌≡◌, refl, arith, List, [], ◌∷◌, some, Bytes, length, append-nil, ok,
}
use noisecat.Whatsapp.Proto.{
  append_bytes_field, nested_bytes, unmarshal_client_hello, marshal_client_hello,
  unmarshal_client_finish, marshal_client_finish, unmarshal_server_hello, marshal_server_hello,
}
use noisecat.Whatsapp.Proto.Encoded.{
  Fits, encode, sizes, length-encode_le, pb_parse-encode, pb_parse-single, two_fields, three_fields,
  pb_parse_nested,
}

pub client_hello_lem :
    (ephemeral : Bytes)
    → length ephemeral ≡ 32
    → unmarshal_client_hello (marshal_client_hello ephemeral) ≡ ok ephemeral
unfolding unmarshal_client_hello marshal_client_hello nested_bytes
client_hello_lem ephemeral he =
    let inner = append_bytes_field [] 1 ephemeral in
    let short : length (encode ((1, ephemeral) ∷ [])) < 2 ^ 64 =
      omega (arith, length-encode_le ((1, ephemeral) ∷ [])) in
    let short' : length inner < 2 ^ 64 = rw (append-nil inner) at short in
    let fit : Fits 1 ephemeral = (omega arith, omega arith) in
    let nested : Fits 2 inner = (omega arith, short') in
    simp (pb_parse-single 2 inner nested, pb_parse-single 1 ephemeral fit, he) refl

pub client_finish_lem :
    (static payload : Bytes)
    → length static < 2 ^ 32
    → length payload < 2 ^ 32
    → unmarshal_client_finish (marshal_client_finish static payload) ≡ ok (static, some payload)
unfolding unmarshal_client_finish marshal_client_finish nested_bytes
client_finish_lem static payload hs hp =
    let short : sizes ((1, static) ∷ (2, payload) ∷ []) < 2 ^ 34 = omega arith in
    let fit_static : Fits 1 static = (omega arith, omega arith) in
    let fit_payload : Fits 2 payload = (omega arith, omega arith) in
    simp
      (
        two_fields 1 2 static payload,
        pb_parse_nested 4 ((1, static) ∷ (2, payload) ∷ []) (omega arith) (omega arith) short,
        pb_parse-encode ((1, static) ∷ (2, payload) ∷ []) (fit_static, (fit_payload, tt))
            (omega arith),
      )
      refl

pub server_hello_lem :
    (ephemeral static payload : Bytes)
    → length ephemeral ≡ 32
    → length static < 2 ^ 32
    → length payload < 2 ^ 32
    → unmarshal_server_hello (marshal_server_hello ephemeral static payload)
      ≡ ok (record { ephemeral = ephemeral; static = static; payload = payload })
unfolding unmarshal_server_hello marshal_server_hello nested_bytes
server_hello_lem ephemeral static payload he hs hp =
    let short : sizes ((1, ephemeral) ∷ (2, static) ∷ (3, payload) ∷ []) < 2 ^ 34 = omega arith in
    let fit_ephemeral : Fits 1 ephemeral = (omega arith, omega arith) in
    let fit_static : Fits 2 static = (omega arith, omega arith) in
    let fit_payload : Fits 3 payload = (omega arith, omega arith) in
    simp
      (
        three_fields 1 2 3 ephemeral static payload,
        pb_parse_nested 3 ((1, ephemeral) ∷ (2, static) ∷ (3, payload) ∷ []) (omega arith)
            (omega arith) short,
        pb_parse-encode ((1, ephemeral) ∷ (2, static) ∷ (3, payload) ∷ [])
            (fit_ephemeral, (fit_static, (fit_payload, tt))) (omega arith),
        he,
      )
      refl

length-append_bytes_field :
    (num : ℕ) (val : Bytes) → length (append_bytes_field [] num val) ≤ 20 + length val
length-append_bytes_field num val =
    let whole = append-nil (append_bytes_field [] num val) in
    omega (arith, rw whole at (length-encode_le ((num, val) ∷ [])))

pub length-marshal_client_hello :
    (ephemeral : Bytes) → length (marshal_client_hello ephemeral) ≤ 40 + length ephemeral
unfolding marshal_client_hello
length-marshal_client_hello ephemeral = omega (
  arith,
  length-append_bytes_field 2 (append_bytes_field [] 1 ephemeral),
  length-append_bytes_field 1 ephemeral,
)

pub length-marshal_client_finish :
    (static payload : Bytes)
    → length (marshal_client_finish static payload) ≤ 60 + length static + length payload
unfolding marshal_client_finish
length-marshal_client_finish static payload =
    let fields : List (ℕ × Bytes) = (1, static) ∷ (2, payload) ∷ [] in
    rw (two_fields 1 2 static payload)
      (omega (arith, length-append_bytes_field 4 (encode fields), length-encode_le fields))

pub length-marshal_server_hello :
    (ephemeral static payload : Bytes)
    → length (marshal_server_hello ephemeral static payload)
      ≤ 80 + length ephemeral + length static + length payload
unfolding marshal_server_hello
length-marshal_server_hello ephemeral static payload =
    let fields : List (ℕ × Bytes) = (1, ephemeral) ∷ (2, static) ∷ (3, payload) ∷ [] in
    rw (three_fields 1 2 3 ephemeral static payload)
      (omega (arith, length-append_bytes_field 3 (encode fields), length-encode_le fields))

-- What each side writes for a hello or a finish is what the other reads, for keys of 32 bytes where
-- the source asks for them and for messages below 4 GB. The server's hello has all its fields.
pub unmarshal-marshal_hellos :
    (ephemeral static payload : Bytes)
    → length ephemeral ≡ 32
    → length static < 2 ^ 32
    → length payload < 2 ^ 32
    → (unmarshal_client_hello (marshal_client_hello ephemeral) ≡ ok ephemeral)
      × (unmarshal_client_finish (marshal_client_finish static payload) ≡ ok (static, some payload))
      × (unmarshal_server_hello (marshal_server_hello ephemeral static payload)
          ≡ ok (record { ephemeral = ephemeral; static = static; payload = payload }))
unmarshal-marshal_hellos ephemeral static payload he hs hp = (
  client_hello_lem ephemeral he,
  client_finish_lem static payload hs hp,
  server_hello_lem ephemeral static payload he hs hp,
)
