-- ===== src/Whatsapp/Cert.antt =====
-- pkg/transport/whatsapp/cert.go: the certificate chain of the server. An error's printed operands
-- are left out.
pub mod Chain
use noisecat.Base.{
  equal, ℕ, zero, suc, ◌+◌, ◌*◌, ◌/◌, ◌%◌, ◌^◌, Bool, false, not, ◌||◌, Option, none, some, List,
  [], ◌∷◌, Bytes, length, get_or, ◌==◌, leb, if◌then◌else◌, text, Result, ok, wrapped,
}
use noisecat.Results.{◌>>=◌, ◌>>◌, require, or_err}
use noisecat.Whatsapp.Proto.{PbField, pb_parse, nested_bytes, len, elements}

-- The library's parts: field elements of edwards25519, ed25519.Verify, and the times of package
-- time, where `unix` takes the bits of an int64 of seconds.
pub record CertLibrary : Type 1 where
  pub Element : Type 0
  pub set_bytes : Bytes → Option Element
  pub one : Element
  pub subtract : Element → Element → Element
  pub add : Element → Element → Element
  pub invert : Element → Element
  pub multiply : Element → Element → Element
  pub element_bytes : Element → Bytes
  pub ed25519_verify : Bytes → Bytes → Bytes → Bool
  pub Time : Type 0
  pub unix : ℕ → Time
  pub before : Time → Time → Bool
  pub after : Time → Time → Bool

pub record CertDetails : Type 0 where
  pub serial : ℕ
  pub issuer_serial : ℕ
  pub key : Option Bytes
  pub not_before : ℕ
  pub not_after : ℕ

abbrev pub no_details : CertDetails
no_details = record { serial = 0; issuer_serial = 0; key = none; not_before = 0; not_after = 0 }

-- One round of the loop over the fields: the number decides, not the wire type, and the last wins.
unfoldable pub set_detail : PbField → CertDetails → CertDetails
set_detail f d =
    if f.num == 1
    then record d { serial = f.val % 2 ^ 32 }
    else if f.num == 2
    then record d { issuer_serial = f.val % 2 ^ 32 }
    else if f.num == 3
    then record d { key = f.bytes }
    else if f.num == 4
    then record d { not_before = f.val }
    else if f.num == 5
    then record d { not_after = f.val }
    else d

unfoldable pub set_details : List PbField → CertDetails → CertDetails
set_details [] d = d
set_details (f ∷ fs) d = set_details fs (set_detail f d)

unfoldable pub parse_details : Bytes → Result CertDetails
parse_details b = do fields ← pb_parse b; ok (set_details fields no_details)

pub record NoiseCert : Type 0 where
  pub details : Option Bytes
  pub signature : Option Bytes

unfoldable pub parse_noise_cert : Bytes → Result NoiseCert
parse_noise_cert b = do
  fields ← pb_parse b
  ok (record { details = nested_bytes fields 1; signature = nested_bytes fields 2 })

-- A slice with element `i` changed.
unfoldable pub change : (ℕ → ℕ) → Bytes → ℕ → Bytes
change f [] i = []
change f (x ∷ xs) zero = f x ∷ xs
change f (x ∷ xs) (suc i) = x ∷ change f xs i

module _ (l : CertLibrary) where
  open l use {
    set_bytes, one, subtract, add, invert, multiply, element_bytes, ed25519_verify, Time, unix,
    before, after,
  }

  unfoldable pub xeddsa_verify : Bytes → Bytes → Bytes → Bool
  xeddsa_verify mont_pub message signature = elim (set_bytes (change (λ b. b % 128) mont_pub 31)) [
    | none ↦ false
    | some mont_x ↦
        let ed_y = multiply (subtract mont_x one) (invert (add mont_x one)) in
        let sign = get_or signature 63 0 / 128 * 128 in
        ed25519_verify
          (change (λ b. b % 128 + (if leb 128 b || leb 128 sign then 128 else 0))
            (element_bytes ed_y) 31)
          message (change (λ b. b % 128) signature 63)
  ]

  unfoldable pub check_cert_validity : Time → CertDetails → Result (Unit {0})
  check_cert_validity now d = do
    require (not (before now (unix d.not_before))) (text "not valid yet")
    require (not (after now (unix d.not_after))) (text "expired")

  -- The two certificates of a chain that has all its parts.
  pub record ChainParts : Type 0 where
    pub leaf_details : Bytes
    pub leaf_signature : Bytes
    pub int_details : Bytes
    pub int_signature : Bytes

  chain_parts : NoiseCert → NoiseCert → Result ChainParts
  chain_parts leaf intermediate = do
    let missing = text "missing parts of noise certificate"
    ld ← or_err leaf.details missing
    ls ← or_err leaf.signature missing
    id ← or_err intermediate.details missing
    is ← or_err intermediate.signature missing
    ok (record { leaf_details = ld; leaf_signature = ls; int_details = id; int_signature = is })

  unfoldable pub read_chain : Bytes → Result ChainParts
  unfolding chain_parts
  read_chain cert = do
    top ← wrapped "unmarshal cert chain" (pb_parse cert)
    let missing = text "missing leaf or intermediate certificate"
    leaf_bytes ← or_err (nested_bytes top 1) missing
    int_bytes ← or_err (nested_bytes top 2) missing
    leaf ← parse_noise_cert leaf_bytes
    intermediate ← parse_noise_cert int_bytes
    chain_parts leaf intermediate

  -- From `if len(intermediate.signature) != 64` on.
  unfoldable pub check_chain : Time → Bytes → Bytes → ChainParts → Result (Unit {0})
  check_chain now static root_key c = do
    require (length c.int_signature == 64) (text "unexpected intermediate signature length")
    require (length c.leaf_signature == 64) (text "unexpected leaf signature length")
    require (xeddsa_verify root_key c.int_details c.int_signature)
        (text "failed to verify intermediate cert signature")
    int ← parse_details c.int_details
    require (int.issuer_serial == 0) (text "unexpected intermediate issuer serial")
    require (len int.key == 32) (text "unexpected intermediate key length")
    require (xeddsa_verify (elements int.key) c.leaf_details c.leaf_signature)
        (text "failed to verify leaf cert signature")
    wrapped "intermediate cert" (check_cert_validity now int)
    leaf ← parse_details c.leaf_details
    require (leaf.issuer_serial == int.serial) (text "unexpected leaf issuer serial")
    require (equal (elements leaf.key) static)
        (text "cert key doesn't match decrypted server static")
    wrapped "leaf cert" (check_cert_validity now leaf)

  unfoldable pub verify_server_cert : Time → Bytes → Bytes → Bytes → Result (Unit {0})
  verify_server_cert now cert static root_key = do
    c ← read_chain cert
    check_chain now static root_key c
