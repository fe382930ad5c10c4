-- ===== src/Whatsapp/Cert/Chain.antt =====
-- What a chain that cert.go accepts has.
use noisecat.Base.{
  equal, equal_iff, ◌≡◌, refl, Bool, true, false, not, Bytes, length, ◌==◌, ==_iff, ok, wrapped,
}
use noisecat.Results.{>>=-eq-ok, require-eq-ok, require-true, wrapped-eq-ok}
use noisecat.Whatsapp.Proto.{len, elements}
use noisecat.Whatsapp.Cert.{
  CertLibrary, CertDetails, ChainParts, parse_details, xeddsa_verify, check_cert_validity,
  read_chain, check_chain, verify_server_cert,
}

module _ (l : CertLibrary) where
  open l use {Time, unix, before, after}

  -- `now` lies in the window of the certificate.
  abbrev pub Valid : Time → CertDetails → Type 0
  Valid now d = (before now (unix d.not_before) ≡ false) × (after now (unix d.not_after) ≡ false)

  not-true : (t : Bool) → not t ≡ true → t ≡ false
  not-true true h = cc
  not-true false h = refl

  check_cert_validity-Valid :
      (now : Time) (d : CertDetails) → check_cert_validity l now d ≡ ok tt → Valid now d
  unfolding check_cert_validity
  check_cert_validity-Valid now d h =
      let (early, h1) = require-eq-ok (not (before now (unix d.not_before))) _ _ h in
      (not-true _ early, not-true _ (require-true (not (after now (unix d.not_after))) _ h1))

  -- The root signed the intermediate certificate, whose key signed the leaf; both are valid, the
  -- serials fit together, and the leaf's key is the one of the handshake.
  pub record Chained (now : Time) (static root_key : Bytes) (c : ChainParts l)
      (int leaf : CertDetails) : Type 0 where
    pub int_parsed : parse_details c.int_details ≡ ok int
    pub leaf_parsed : parse_details c.leaf_details ≡ ok leaf
    pub int_signed : xeddsa_verify l root_key c.int_details c.int_signature ≡ true
    pub leaf_signed : xeddsa_verify l (elements int.key) c.leaf_details c.leaf_signature ≡ true
    pub key_size : len int.key ≡ 32
    pub int_issuer : int.issuer_serial ≡ 0
    pub leaf_issuer : leaf.issuer_serial ≡ int.serial
    pub leaf_key : elements leaf.key ≡ static
    pub int_valid : Valid now int
    pub leaf_valid : Valid now leaf

  check_chain-Chained :
      (now : Time) (static root_key : Bytes) (c : ChainParts l)
      → check_chain l now static root_key c ≡ ok tt
      → (int leaf : CertDetails) × Chained now static root_key c int leaf
  unfolding check_chain
  check_chain-Chained now static root_key c h =
      let (s1, h1) = require-eq-ok (length c.int_signature == 64) _ _ h in
      let (s2, h2) = require-eq-ok (length c.leaf_signature == 64) _ _ h1 in
      let (signed, h3) =
        require-eq-ok (xeddsa_verify l root_key c.int_details c.int_signature) _ _ h2 in
      let (int, parsed, h4) = >>=-eq-ok (parse_details c.int_details) _ h3 in
      let (issuer, h5) = require-eq-ok (int.issuer_serial == 0) _ _ h4 in
      let (size, h6) = require-eq-ok (len int.key == 32) _ _ h5 in
      let (signed', h7) =
        require-eq-ok (xeddsa_verify l (elements int.key) c.leaf_details c.leaf_signature) _ _ h6 in
      let (u, valid, h8) =
        >>=-eq-ok (wrapped "intermediate cert" (check_cert_validity l now int)) _ h7 in
      let (leaf, parsed', h9) = >>=-eq-ok (parse_details c.leaf_details) _ h8 in
      let (issuer', h10) = require-eq-ok (leaf.issuer_serial == int.serial) _ _ h9 in
      let (key, h11) = require-eq-ok (equal (elements leaf.key) static) _ _ h10 in
      (
        int,
        leaf,
        record {
          int_parsed = parsed;
          leaf_parsed = parsed';
          int_signed = signed;
          leaf_signed = signed';
          key_size = (==_iff (len int.key) 32).0 size;
          int_issuer = (==_iff int.issuer_serial 0).0 issuer;
          leaf_issuer = (==_iff leaf.issuer_serial int.serial).0 issuer';
          leaf_key = equal_iff (elements leaf.key) static key;
          int_valid =
              check_cert_validity-Valid now int
                (wrapped-eq-ok "intermediate cert" (check_cert_validity l now int) valid);
          leaf_valid =
              check_cert_validity-Valid now leaf
                (wrapped-eq-ok "leaf cert" (check_cert_validity l now leaf) h11);
        },
      )

  -- A chain that is accepted has all its parts: the pinned root key signed the intermediate
  -- certificate, which names serial 0 as its issuer and whose 32-byte key signed the leaf; the leaf
  -- names the intermediate's serial, its key is the static key of the handshake, and the time lies in
  -- both windows.
  pub verify_server_cert-Chained :
      (now : Time) (cert static root_key : Bytes)
      → verify_server_cert l now cert static root_key ≡ ok tt
      → (c : ChainParts l) × (read_chain l cert ≡ ok c)
        × (int leaf : CertDetails) × Chained now static root_key c int leaf
  unfolding verify_server_cert
  verify_server_cert-Chained now cert static root_key h =
      let (c, read, checked) = >>=-eq-ok (read_chain l cert) _ h in
      let (int, leaf, chained) = check_chain-Chained now static root_key c checked in
      (c, read, int, leaf, chained)
