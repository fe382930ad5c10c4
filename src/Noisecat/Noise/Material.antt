-- ===== src/Noisecat/Noise/Material.antt =====
-- The keys that buildNoise25519Config of pkg/noisecat/noise.go loads, and its tables.
use noisecat.Base.{
  ℕ, ◌≤◌, ◌≡◌, ◌≢◌, ◌⊎◌, ◌∙◌, inl, inr, sym, ap, refl, arith, Bool, true, false, not, ◌&&◌, ◌||◌,
  Option, none, some, [], ◌∷◌, Bytes, is_blank, length, equal, equal_iff, ◌==◌, ==_iff, Bool-cases,
  if◌then◌else◌, wrapped, ok,
}
use noisecat.Results.{require-eq-ok, >>=-eq-ok}
use noisecat.Noisecat.Names.{Protocol, dh_curve25519, dh_secp256k1, pattern_str_byte, dh_str_byte}
use noisecat.Noisecat.Names.Parts.{IsPlacement, entries}
use noisecat.Noisecat.Config.{Config}
use noisecat.Noisecat.Keys.{DhKey, no_key, Env, check_local_keypair, read_keypair}
use noisecat.Noisecat.Noise.{
  pattern_at, pattern_byte_obj, sends_static, decode_psk, unwrapped, load_psk, check_remote_static,
  local_static, remote_static, load_statics,
}

abbrev pub IsKeypair32 : DhKey → Type 0
IsKeypair32 k = (length k.public ≡ 32) × (length k.private ≡ 32)

-- What GenerateKeypair promises for Curve25519.
abbrev pub Generates : Env → Type 0
Generates env =
    (cipher hash : ℕ) (k : DhKey)
    → env.generate_keypair dh_curve25519 cipher hash ≡ ok k
    → IsKeypair32 k

-- An endpoint with the letter 'N' has no key pair, any other has one.
abbrev pub Own : ℕ → DhKey → Type 0
Own letter k = ((letter ≡ b'N') × (k ≡ no_key)) ⊎ ((letter ≢ b'N') × IsKeypair32 k)

-- The key of a peer with the letter 'K' is known, and no other.
abbrev pub Peer : ℕ → Bytes → Type 0
Peer letter rs = ((letter ≡ b'K') × (length rs ≡ 32)) ⊎ ((letter ≢ b'K') × (rs ≡ []))

abbrev pub Psk : Option ℕ → Bytes → ℕ → Type 0
Psk placement key n =
    ((placement ≡ none) × (key ≡ [])) ⊎ ((placement ≡ some n) × (n ≤ 3) × (length key ≡ 32))

-- The tables.
abbrev is_letter : Bool → ℕ → Bool
is_letter initiator c = c == b'N' || sends_static initiator c

abbrev pub is_pattern_entry : Bytes → ℕ → Bool
is_pattern_entry (a ∷ b ∷ []) v =
    equal (a ∷ b ∷ []) (pattern_at v pattern_byte_obj) && (is_letter true a && is_letter false b)
is_pattern_entry k v = false

pub pattern_entries : entries is_pattern_entry pattern_str_byte ≡ true
unfolding pattern_at
pattern_entries = refl

pub dh_entries : entries (λ k v. v == dh_curve25519 || v == dh_secp256k1) dh_str_byte ≡ true
dh_entries = refl

and_true : (a b : Bool) → (a && b) ≡ true → (a ≡ true) × (b ≡ true)
and_true true b h = (refl, h)
and_true false b h = cc

or_false : (a : Bool) → (a || false) ≡ true → a ≡ true
or_false true h = refl
or_false false h = cc

pub pattern_letters :
    (k : Bytes) (v : ℕ)
    → is_pattern_entry k v ≡ true
    → (a b : ℕ) × (k ≡ a ∷ b ∷ [])
      × (pattern_at v pattern_byte_obj ≡ a ∷ b ∷ [])
      × (is_letter true a ≡ true)
      × (is_letter false b ≡ true)
pattern_letters [] v h = absurd (cc h)
pattern_letters (a ∷ []) v h = absurd (cc h)
pattern_letters (a ∷ b ∷ []) v h =
    let (same, letters) = and_true (equal (a ∷ b ∷ []) (pattern_at v pattern_byte_obj)) _ h in
    let (is_a, is_b) = and_true (is_letter true a) _ letters in
    (a, b, refl, sym (equal_iff _ _ same), is_a, is_b)
pattern_letters (a ∷ b ∷ c ∷ k) v h = absurd (cc h)

sends_not_n : (initiator : Bool) (c : ℕ) → sends_static initiator c ≡ true → c ≢ b'N'
sends_not_n true c h = λ e. absurd (ground arith)
sends_not_n false c h = λ e. absurd (ground arith)

pub curve :
    (v : ℕ)
    → (v == dh_curve25519 || v == dh_secp256k1) ≡ true
    → not (v == dh_secp256k1) ≡ true
    → v ≡ dh_curve25519
curve v h k = ground arith

module _ (env : Env) where
  check_local_keypair-IsKeypair32 :
      (path : Bytes) (cipher hash : ℕ) (k : DhKey)
      → Generates env
      → check_local_keypair env path dh_curve25519 cipher hash ≡ ok k
      → IsKeypair32 k
  unfolding check_local_keypair
  check_local_keypair-IsKeypair32 [] cipher hash k generates h = generates cipher hash k h
  check_local_keypair-IsKeypair32 (c ∷ path) cipher hash k generates h =
      let (kp, is_read, h1) = >>=-eq-ok (read_keypair env (c ∷ path)) _ h in
      let (fits, h2) = require-eq-ok (length kp.public == 32 && length kp.private == 32) _ _ h1 in
      let (public, private) = and_true (length kp.public == 32) (length kp.private == 32) fits in
      let same : kp ≡ k = cc h2 in
      rw (sym same)
        ((==_iff (length kp.public) 32).0 public, (==_iff (length kp.private) 32).0 private)

  local_static-Own :
      (initiator : Bool) (letter : ℕ) (c : Config) (p : Protocol) (k : DhKey)
      → Generates env
      → p.dh_func ≡ dh_curve25519
      → is_letter initiator letter ≡ true
      → local_static env (sends_static initiator letter) c p ≡ ok k
      → Own letter k
  unfolding local_static
  local_static-Own initiator letter c p k generates dh known h =
      elim (Bool-cases (sends_static initiator letter)) [
        | inl e ↦ inr (
          sends_not_n initiator letter e,
          check_local_keypair-IsKeypair32 c.l_static p.cipher_func p.hash_func k generates (
              ap (λ d. check_local_keypair env c.l_static d p.cipher_func p.hash_func) (sym dh)
              ∙ simp e at h),
        )
        | inr e ↦
            let none_sent : ok no_key ≡ ok k = simp e at h in
            let is_n : (letter == b'N') ≡ true = or_false (letter == b'N') (simp e at known) in
            inl ((==_iff letter b'N').0 is_n, cc)
      ]

  check_remote_static-length :
      (r_static rs : Bytes) → check_remote_static env r_static ≡ ok rs → length rs ≡ 32
  unfolding check_remote_static
  check_remote_static-length r_static rs h =
      let (given, h1) = require-eq-ok (not (is_blank r_static)) _ _ h in
      let (b, decoded, h2) =
        >>=-eq-ok (wrapped "invalid remote static key" (env.decode_string r_static)) _ h1 in
      let (fits, h3) = require-eq-ok (length b == 32) _ _ h2 in
      let same : b ≡ rs = cc h3 in ap length (sym same) ∙ (==_iff (length b) 32).0 fits

  remote_static-Peer :
      (letter : ℕ) (c : Config) (rs : Bytes)
      → remote_static env (letter == b'K') c ≡ ok rs
      → Peer letter rs
  unfolding remote_static
  remote_static-Peer letter c rs h = elim (Bool-cases (letter == b'K')) [
    | inl e ↦ inl ((==_iff letter b'K').0 e, check_remote_static-length c.r_static rs (simp e at h))
    | inr e ↦
        let none_known : ok [] ≡ ok rs = simp e at h in
        inr (λ k. cc (e, (==_iff letter b'K').1 k), cc)
  ]

  decode_psk-length : (key psk : Bytes) → decode_psk env key ≡ ok psk → length psk ≡ 32
  unfolding decode_psk
  decode_psk-length key psk h =
      let (b, decoded, h1) = >>=-eq-ok (unwrapped env _ (env.decode_string key)) _ h in
      let (fits, h2) = require-eq-ok (length b == 32) _ _ h1 in
      let same : b ≡ psk = cc h2 in ap length (sym same) ∙ (==_iff (length b) 32).0 fits

  pub load_psk-Psk :
      (key : Bytes) (placement : Option ℕ) (psk : Bytes) (n : ℕ)
      → IsPlacement placement
      → load_psk env key placement ≡ ok (psk, n)
      → Psk placement psk n
  unfolding load_psk
  load_psk-Psk [] none psk n fits h = inl (refl, cc h)
  load_psk-Psk [] (some m) psk n fits h = absurd (cc h)
  load_psk-Psk (c ∷ key) none psk n fits h = absurd (cc h)
  load_psk-Psk (c ∷ key) (some m) psk n fits h =
      let (psk', decoded, h1) = >>=-eq-ok (decode_psk env (c ∷ key)) _ h in
      let same : psk' ≡ psk = cc h1 in
      let placed : m ≡ n = cc h1 in
      inr
        (ap some placed, rw placed at fits, decode_psk-length (c ∷ key) psk (decoded ∙ ap ok same))

  pub load_statics_lem :
      (a b : ℕ) (initiator : Bool) (c : Config) (p : Protocol) (k : DhKey) (rs : Bytes)
      → Generates env
      → p.dh_func ≡ dh_curve25519
      → is_letter true a ≡ true
      → is_letter false b ≡ true
      → load_statics env (a ∷ b ∷ []) initiator c p ≡ ok (k, rs)
      → Own (if initiator then a else b) k × Peer (if initiator then b else a) rs
  unfolding load_statics
  load_statics_lem a b true c p k rs generates dh is_a is_b h =
      let (k', loaded, h1) = >>=-eq-ok (local_static env (sends_static true a) c p) _ h in
      let (rs', known, h2) = >>=-eq-ok (remote_static env (b == b'K') c) _ h1 in
      let same_k : k' ≡ k = cc h2 in
      let same_rs : rs' ≡ rs = cc h2 in
      (
        local_static-Own true a c p k generates dh is_a (loaded ∙ ap ok same_k),
        remote_static-Peer b c rs (known ∙ ap ok same_rs),
      )
  load_statics_lem a b false c p k rs generates dh is_a is_b h =
      let (rs', known, h1) = >>=-eq-ok (remote_static env (a == b'K') c) _ h in
      let (k', loaded, h2) = >>=-eq-ok (local_static env (sends_static false b) c p) _ h1 in
      let same_k : k' ≡ k = cc h2 in
      let same_rs : rs' ≡ rs = cc h2 in
      (
        local_static-Own false b c p k generates dh is_b (loaded ∙ ap ok same_k),
        remote_static-Peer a c rs (known ∙ ap ok same_rs),
      )
