-- ===== src/Noisecat/Names/Grammar.antt =====
-- The names that parseProtocolName accepts, and what they stand for.
use noisecat.Base.{
  ℕ, ◌++◌, ◌≡◌, ◌∙◌, ◌↔◌, ap, sym, refl, true, ◌&&◌, Option, some, [], ◌∷◌, Bytes, Bool-cases,
  Option-cases, inl, inr, ok, text,
}
use noisecat.Results.{or_err, >>=-eq-ok, or_err-eq-ok}
use noisecat.Noisecat.Names.{
  Table, lookup, is_upper, function_groups, psk_group, Groups, pattern_group, strip, noise_prefix,
  match_name, Protocol, lookups, parse_protocol_name, pattern_str_byte, dh_str_byte,
  cipher_str_byte, hash_str_byte,
}
use noisecat.Noisecat.Names.Match.{underscore, IsPart}
use noisecat.Noisecat.Names.Parts.{
  IsPlacement, psk_text, functions_text, name_of, keys, is_pair, is_name, keys-lookup,
  is_name-IsPart, functions_keys, function_groups-text, function_groups_sound, psk_group-psk_text,
  psk_group_sound, strip_sound,
}

-- The parts are in the tables.
pub record Known (k : Bytes × (Bytes × (Bytes × Bytes))) (p : Protocol) : Type 0 where
  pub known_pattern : lookup k.0 pattern_str_byte ≡ some p.pattern_
  pub known_dh : lookup k.1.0 dh_str_byte ≡ some p.dh_func
  pub known_cipher : lookup k.1.1.0 cipher_str_byte ≡ some p.cipher_func
  pub known_hash : lookup k.1.1.1 hash_str_byte ≡ some p.hash_func

-- The text is the name of the protocol.
abbrev pub Names : Bytes → Protocol → Type 0
Names s p =
    (pattern_ dh cipher hash : Bytes) × Known (pattern_, (dh, (cipher, hash))) p
    × IsPlacement p.psk_placement
    × (s ≡ name_of pattern_ p.psk_placement dh cipher hash)

pattern_keys : keys is_pair pattern_str_byte ≡ true
pattern_keys = refl

pattern_group-text :
    (k d c h : Bytes) (psk : Option ℕ)
    → is_pair k ≡ true
    → IsPart d
    → IsPart c
    → IsPart h
    → IsPlacement psk
    → pattern_group (k ++ (psk_text psk ++ functions_text d c h))
      ≡ some (record { pattern_name = k; psk = psk; functions = (d, (c, h)) })
unfolding pattern_group
pattern_group-text [] d c h psk upper hd hc hh fits = absurd (cc upper)
pattern_group-text (a ∷ []) d c h psk upper hd hc hh fits = absurd (cc upper)
pattern_group-text (a ∷ b ∷ []) d c h psk upper hd hc hh fits =
    let placed = psk_group-psk_text psk (d ++ (underscore ∷ (c ++ (underscore ∷ h)))) fits in
    simp (placed, upper, function_groups-text d c h hd hc hh) refl
pattern_group-text (a ∷ b ∷ e ∷ k) d c h psk upper hd hc hh fits = absurd (cc upper)

match_name-prefix :
    (r : Bytes) (g : Groups) → pattern_group r ≡ some g → match_name (noise_prefix ++ r) ≡ some g
unfolding match_name strip
match_name-prefix r g h = h

match_name_sound :
    (s : Bytes) (g : Groups)
    → match_name s ≡ some g
    → (r : Bytes) × (s ≡ noise_prefix ++ r) × (pattern_group r ≡ some g)
unfolding match_name strip
match_name_sound s g h = elim (Option-cases (strip noise_prefix s)) [
  | inl e ↦ absurd (cc (simp e at h))
  | inr (r, e) ↦ (r, strip_sound noise_prefix s r e, simp e at h)
]

parsed :
    (s : Bytes) (g : Groups) (p : Protocol)
    → match_name s ≡ some g
    → lookups g ≡ some p
    → parse_protocol_name s ≡ ok p
unfolding parse_protocol_name
parsed s g p matched found = simp (matched, found) refl

lookups-Known :
    (k d c h : Bytes) (p : Protocol)
    → Known (k, (d, (c, h))) p
    → lookups (record { pattern_name = k; psk = p.psk_placement; functions = (d, (c, h)) }) ≡ some p
unfolding lookups lookup
lookups-Known k d c h p known =
    simp (known.known_pattern, known.known_dh, known.known_cipher, known.known_hash) refl

parse_complete : (s : Bytes) (p : Protocol) → Names s p → parse_protocol_name s ≡ ok p
parse_complete s p (k, d, c, h, known, fits, is_name_of) =
    let upper =
      keys-lookup is_pair pattern_str_byte k p.pattern_ pattern_keys known.known_pattern in
    let part : (t : Table) (x : Bytes) (v : ℕ)
        → keys is_name t ≡ true
        → lookup x t ≡ some v
        → IsPart x =
      λ t x v all found. is_name-IsPart x (keys-lookup is_name t x v all found) in
    let hd = part dh_str_byte d p.dh_func (functions_keys.0) known.known_dh in
    let hc = part cipher_str_byte c p.cipher_func (functions_keys.1) known.known_cipher in
    let hh = part hash_str_byte h p.hash_func (functions_keys.2) known.known_hash in
    let found = pattern_group-text k d c h p.psk_placement upper hd hc hh fits in
    parsed s _ p (ap match_name is_name_of ∙ match_name-prefix _ _ found)
      (lookups-Known k d c h p known)

abbrev text_of : Groups → Bytes
text_of g =
    g.pattern_name
    ++ (psk_text g.psk ++ functions_text (g.functions.0) (g.functions.1.0) (g.functions.1.1))

pattern_group_sound :
    (s : Bytes) (g : Groups) → pattern_group s ≡ some g → (s ≡ text_of g) × IsPlacement g.psk
unfolding pattern_group
pattern_group_sound [] g h = absurd (cc h)
pattern_group_sound (a ∷ []) g h = absurd (cc h)
pattern_group_sound (a ∷ b ∷ s) g h = elim (Bool-cases (is_upper a && is_upper b)) [
  | inr e ↦ absurd (cc (simp e at h))
  | inl upper ↦ elim (Option-cases (function_groups ((psk_group s).1))) [
    | inl e ↦ absurd (cc (simp (upper, e) at h))
    | inr ((d, (c, hh)), e) ↦
        let (split, fits) = psk_group_sound s in
        let functions = function_groups_sound ((psk_group s).1) d c hh e in
        let read : Groups = record {
          pattern_name = a ∷ b ∷ [];
          psk = (psk_group s).0;
          functions = (d, (c, hh));
        } in
        let is_read : some read ≡ some g = simp (upper, e) at h in
        let same : g ≡ read = cc in
        rw same
          (ap (λ x. a ∷ b ∷ x) (split ∙ ap (λ x. psk_text ((psk_group s).0) ++ x) functions), fits)
  ]
]

lookups_sound :
    (g : Groups) (p : Protocol)
    → lookups g ≡ some p
    → Known (g.pattern_name, (g.functions.0, (g.functions.1.0, g.functions.1.1))) p
      × (g.psk ≡ p.psk_placement)
unfolding lookups lookup
lookups_sound g p h = elim (Option-cases (lookup g.pattern_name pattern_str_byte)) [
  | inl e ↦ absurd (cc (simp e at h))
  | inr (hs, known_hs) ↦ elim (Option-cases (lookup (g.functions.0) dh_str_byte)) [
    | inl e ↦ absurd (cc (simp (known_hs, e) at h))
    | inr (dh, known_dh) ↦ elim (Option-cases (lookup (g.functions.1.0) cipher_str_byte)) [
      | inl e ↦ absurd (cc (simp (known_hs, known_dh, e) at h))
      | inr (cipher, known_cipher) ↦ elim (Option-cases (lookup (g.functions.1.1) hash_str_byte)) [
        | inl e ↦ absurd (cc (simp (known_hs, known_dh, known_cipher, e) at h))
        | inr (hash, known_hash) ↦
            let found : Protocol = record {
              pattern_ = hs;
              dh_func = dh;
              cipher_func = cipher;
              hash_func = hash;
              psk_placement = g.psk;
            } in
            let is_found : some found ≡ some p =
              simp (known_hs, known_dh, known_cipher, known_hash) at h in
            let same : p ≡ found = cc in
            rw same (
              record {
                known_pattern = known_hs;
                known_dh = known_dh;
                known_cipher = known_cipher;
                known_hash = known_hash;
              },
              refl,
            )
      ]
    ]
  ]
]

parse_sound : (s : Bytes) (p : Protocol) → parse_protocol_name s ≡ ok p → Names s p
unfolding parse_protocol_name
parse_sound s p h =
    let (g, matched, found) =
      >>=-eq-ok
        (or_err (match_name s) (text "invalid protocol name (expected Noise_PT[pskN]_DH_CP_HS)")) _
        h in
    let found' : lookups g ≡ some p = or_err-eq-ok (lookups g) _ found in
    let matched' : match_name s ≡ some g = or_err-eq-ok (match_name s) _ matched in
    let (r, prefixed, grouped) = match_name_sound s g matched' in
    let (split, fits) = pattern_group_sound r g grouped in
    let (known, same) = lookups_sound g p found' in
    (
      g.pattern_name,
      g.functions.0,
      g.functions.1.0,
      g.functions.1.1,
      known,
      rw (sym same) fits,
      prefixed
          ∙ ap (λ x. noise_prefix ++ x) split
          ∙ ap (λ x. name_of g.pattern_name x (g.functions.0) (g.functions.1.0) (g.functions.1.1))
              same,
    )

-- A text parses as a protocol exactly where it is the name of the protocol: "Noise_", the pattern,
-- "psk" and the placement from 0 to 3 where there is one, and the functions, each behind an
-- underscore, all from the tables.
pub parse_protocol_name-Names :
    (s : Bytes) (p : Protocol) → (parse_protocol_name s ≡ ok p) ↔ Names s p
parse_protocol_name-Names s p = (parse_sound s p, parse_complete s p)
