-- ===== src/Whatsapp/Tests.antt =====
-- A small library that meets the assumptions, runs of the code, and the theorems at concrete inputs.
use noisecat.Base.{
  ℕ, ◌+◌, ◌%◌, ◌++◌, ◌<◌, ◌≡◌, refl, ap, arith, Bool, true, false, [], ◌∷◌, some, none, Bytes,
  length, length-replicate, replicate, drop, get_or, ◌==◌, ==_refl, if◌then◌else◌, Result, ok, err,
  ret, text,
}
use noisecat.Whatsapp.Framing.Frames.{framed, wire_frame}
use noisecat.Whatsapp.Varint.{append_varint, append_varint_loop, uvarint_loop, uvarint}
use noisecat.Whatsapp.Proto.{
  append_bytes_field, append_varint_field, pb_loop, read_field, read_value, read_varint_field,
  read_len_field, skip_field, nested_bytes, pb_parse,
}
use noisecat.Whatsapp.Proto.Bounds.{Sound, pb_parse-Sound}
use noisecat.Whatsapp.Cert.{
  CertLibrary, CertDetails, ChainParts, verify_server_cert, check_chain, read_chain,
  parse_noise_cert, parse_details, set_details, set_detail, xeddsa_verify, change,
  check_cert_validity,
}
use noisecat.Whatsapp.Cert.Chain.{Chained, verify_server_cert-Chained}
use noisecat.Whatsapp.Noise.{Library, IsSound, IsPair, DhKeypair, HandshakeResult, generate_keypair}
use noisecat.Whatsapp.Handshake.{client_handshake, server_handshake}
use noisecat.Whatsapp.Handshake.Agreement.{handshake_mirrored}
use noisecat.Whatsapp.Conn.{write}
use noisecat.Whatsapp.Conn.Session.{Deferred, established, reads, reads-write}

abbrev sum : Bytes → ℕ
sum [] = 7
sum (b ∷ bs) = b + sum bs

abbrev mark : Bytes → Bytes → Bytes → ℕ
mark k n a = (sum k + sum n + sum a) % 256

-- The curve is addition modulo 256, the hash a checksum, the tag sixteen copies of one.
abbrev toy : Library
toy = record {
  Aead = Bytes;
  x25519 = λ a q. ok (replicate 32 ((get_or a 0 0 + get_or q 0 0) % 256));
  basepoint = replicate 32 0;
  sha256 = λ b. replicate 32 (sum b % 256);
  hkdf = λ secret salt info n. replicate n ((sum secret + sum salt) % 256);
  new_cipher = λ k. if length k == 32 then ok k else err (text "invalid key size");
  seal = λ k n p a. replicate 16 (mark k n a) ++ p;
  unseal = λ k n c a.
      if get_or c 0 0 == mark k n a
      then ok (drop 16 c)
      else err (text "message authentication failed");
}

abbrev first_of : Result Bytes → ℕ
first_of (ok b) = get_or b 0 0
first_of (err e) = 0

cipher_made : (k : Bytes) → length k ≡ 32 → (c : Bytes) × (toy.new_cipher k ≡ ok c)
cipher_made k h = (k, rw h refl)

toy_comm :
    (a b : DhKeypair)
    → IsPair toy a
    → IsPair toy b
    → (s : Bytes) × (toy.x25519 a.priv b.public ≡ ok s) × (toy.x25519 b.priv a.public ≡ ok s)
toy_comm a b pa pb =
    let public_a : (get_or a.priv 0 0 + 0) % 256 ≡ get_or a.public 0 0 = ap first_of pa.0 in
    let public_b : (get_or b.priv 0 0 + 0) % 256 ≡ get_or b.public 0 0 = ap first_of pb.0 in
    let same : (get_or b.priv 0 0 + get_or a.public 0 0) % 256
        ≡ (get_or a.priv 0 0 + get_or b.public 0 0) % 256 =
      omega arith in
    (_, refl, ap (λ n. ok (replicate 32 n)) same)

toy-IsSound : IsSound toy
toy-IsSound = record {
  unseal-seal = λ k n p a. rw (==_refl (mark k n a)) refl;
  length-seal = λ k n p a. omega arith;
  length-hkdf = λ s t i n. length-replicate n _;
  new_cipher_ok = cipher_made;
  x25519_comm = toy_comm;
}

abbrev pair : ℕ → DhKeypair
pair n = record { priv = replicate 32 n; public = replicate 32 n }

pb_parse-Sound_example : Sound 4 (pb_parse (18 ∷ 2 ∷ 7 ∷ 8 ∷ []))
pb_parse-Sound_example = pb_parse-Sound (18 ∷ 2 ∷ 7 ∷ 8 ∷ [])

abbrev key : Bytes
key = replicate 32 4

made : (n : ℕ) → n < 256 → generate_keypair toy (ok (replicate 32 n)) ≡ ok (pair n)
unfolding generate_keypair
made n h = let same : (n + 0) % 256 ≡ n = omega arith in rw same refl

paired : (n : ℕ) → n < 256 → IsPair toy (pair n)
paired n h = let same : (n + 0) % 256 ≡ n = omega arith in (rw same refl, refl)

handshake_mirrored_example :
    (m1 m2 m3 : Bytes) × (c d : Bytes) × ((rest o : Bytes) (w r : Bool)
      → client_handshake toy
          (ok (replicate 32 3))
          (pair 5)
          []
          none
          (framed (wire_frame r m2 ++ rest) o w r)
        ≡ ret
            (record { write_key = c; read_key = d; peer_static = replicate 32 6 })
            (framed rest ((o ++ wire_frame w m1) ++ wire_frame false m3) false false))
    × ((rest o : Bytes) (w r : Bool)
        → server_handshake toy
            (ok (replicate 32 4))
            (pair 6)
            []
            (framed (wire_frame w m1 ++ (wire_frame false m3 ++ rest)) o r w)
          ≡ ret
              (record { write_key = d; read_key = c; peer_static = replicate 32 5 })
              (framed rest (o ++ wire_frame r m2) false false))
handshake_mirrored_example =
    handshake_mirrored toy toy-IsSound (ok (replicate 32 3)) (ok (replicate 32 4)) (pair 3) (pair 4)
      (pair 5) (pair 6) [] [] (made 3 (omega arith)) (made 4 (omega arith)) (paired 3 (omega arith))
      (paired 4 (omega arith)) (paired 5 (omega arith)) (paired 6 (omega arith)) (omega arith)
      (omega arith)

abbrev keys : HandshakeResult toy
keys = record { write_key = key; read_key = key; peer_static = key }

-- What a listener's connection has run.
abbrev accepted_fn : Deferred toy
accepted_fn = some (λ f. ret keys f)

reads-write_example :
    (wire : Bytes) × (count n' : ℕ) × (write toy
        (1 ∷ 2 ∷ 3 ∷ [])
        (established toy none (framed [] [] false false) keys 4294967295 0)
      ≡ ret 3 (established toy none (framed [] ([] ++ wire) false false) keys n' 0))
    × (reads toy count
          (established toy accepted_fn (framed (wire ++ 8 ∷ []) [] false false) keys 0 4294967295)
        ≡ ret
            (1 ∷ 2 ∷ 3 ∷ [])
            (established toy accepted_fn (framed (8 ∷ []) [] false false) keys 0 n'))
reads-write_example =
    reads-write toy toy-IsSound none accepted_fn keys keys (1 ∷ 2 ∷ 3 ∷ []) [] [] (8 ∷ []) [] false
      false 4294967295 0 0 refl

-- A library whose signatures are all good and whose clock never objects.
abbrev lenient : CertLibrary
lenient = record {
  Element = Bytes;
  set_bytes = λ b. some b;
  one = [];
  subtract = λ a b. a;
  add = λ a b. a;
  invert = λ a. a;
  multiply = λ a b. a;
  element_bytes = λ a. a;
  ed25519_verify = λ k m s. true;
  Time = ℕ;
  unix = λ n. n;
  before = λ a b. false;
  after = λ a b. false;
}

-- The intermediate has serial 5 and issuer 0, the leaf issuer 5; both hold the key.
chain : Bytes
chain =
    let signature = replicate 64 1 in
    let intermediate = append_bytes_field (append_varint_field [] 1 5) 3 key in
    let leaf = append_bytes_field (append_varint_field [] 2 5) 3 key in
    append_bytes_field
      (append_bytes_field [] 1 (append_bytes_field (append_bytes_field [] 1 leaf) 2 signature)) 2
      (append_bytes_field (append_bytes_field [] 1 intermediate) 2 signature)

accepted : verify_server_cert lenient 100 chain key key ≡ ok tt
unfolding chain verify_server_cert check_chain read_chain parse_noise_cert parse_details set_details
    set_detail xeddsa_verify change check_cert_validity pb_parse pb_loop read_field read_value
    read_varint_field read_len_field skip_field nested_bytes append_bytes_field append_varint_field
    append_varint append_varint_loop uvarint uvarint_loop
accepted = refl

verify_server_cert-Chained_example :
    (c : ChainParts lenient) × (read_chain lenient chain ≡ ok c)
    × (int leaf : CertDetails) × Chained lenient 100 key key c int leaf
verify_server_cert-Chained_example = verify_server_cert-Chained lenient 100 chain key key accepted
