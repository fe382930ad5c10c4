-- ===== src/Noisecat/Names/Parts.antt =====
-- The groups of protocolRegexp, one by one, against the texts they stand for.
use noisecat.Base.{
  ℕ, ◌+◌, ◌-◌, ◌≤◌, ◌++◌, ◌≡◌, ◌∙◌, ap, sym, refl, arith, Bool, true, false, ◌&&◌, Option, none,
  some, [], ◌∷◌, Bytes, length, All, equal, equal_iff, lt→ltb, ltb→lt, ltb, ◌==◌, ==_iff,
  if◌then◌else◌, Bool-cases, inl, inr,
}
use noisecat.Noisecat.Names.{
  Table, lookup, is_word, is_upper, is_psk_digit, word_group, all_words, last_group,
  function_groups, psk_group, strip, noise_prefix, dh_str_byte, cipher_str_byte, hash_str_byte,
}
use noisecat.Noisecat.Names.Match.{
  underscore, IsPlainChar, IsPart, word_group_unmatched, word_group_fails, word_group_part,
  word_group_sound,
}

-- A placement that a name can have.
abbrev pub IsPlacement : Option ℕ → Type 0
IsPlacement none = Unit
IsPlacement (some n) = n ≤ 3

abbrev pub psk_text : Option ℕ → Bytes
psk_text none = []
psk_text (some n) = b'p' ∷ b's' ∷ b'k' ∷ (b'0' + n) ∷ []

abbrev pub functions_text : Bytes → Bytes → Bytes → Bytes
functions_text dh cipher hash = underscore ∷ (dh ++ (underscore ∷ (cipher ++ (underscore ∷ hash))))

-- The name of a protocol, from the names of its parts.
abbrev pub name_of : Bytes → Option ℕ → Bytes → Bytes → Bytes → Bytes
name_of pattern_ psk dh cipher hash =
    noise_prefix ++ (pattern_ ++ (psk_text psk ++ functions_text dh cipher hash))

-- Keys.
abbrev is_part : Bytes → Bool
is_part [] = true
is_part (c ∷ cs) = (is_word c && (if c == b'_' then false else true)) && is_part cs

abbrev pub is_pair : Bytes → Bool
is_pair (a ∷ b ∷ []) = is_upper a && is_upper b
is_pair k = false

abbrev pub entries : (Bytes → ℕ → Bool) → Table → Bool
entries test [] = true
entries test ((k, v) ∷ t) = test k v && entries test t

pub entries-lookup :
    (test : Bytes → ℕ → Bool) (t : Table) (k : Bytes) (v : ℕ)
    → entries test t ≡ true
    → lookup k t ≡ some v
    → test k v ≡ true
unfolding lookup
entries-lookup test [] k v all found = cc
entries-lookup test ((j, u) ∷ t) k v all found = elim (Bool-cases (test j u)) [
  | inr e ↦ absurd (cc (simp e at all))
  | inl e ↦ elim (Bool-cases (equal j k)) [
    | inr other ↦ entries-lookup test t k v (simp e at all) (simp other at found)
    | inl found_here ↦
        let same : j ≡ k = equal_iff j k found_here in
        let value : some u ≡ some v = simp found_here at found in
        let is : u ≡ v = cc in ap (λ x. test x v) (sym same) ∙ (ap (test j) (sym is) ∙ e)
  ]
]

abbrev pub keys : (Bytes → Bool) → Table → Bool
keys test t = entries (λ k v. test k) t

pub keys-lookup :
    (test : Bytes → Bool) (t : Table) (k : Bytes) (v : ℕ)
    → keys test t ≡ true
    → lookup k t ≡ some v
    → test k ≡ true
keys-lookup test t k v all found = entries-lookup (λ k v. test k) t k v all found

part_chars : (k : Bytes) → is_part k ≡ true → All IsPlainChar k
part_chars [] h = tt
part_chars (c ∷ k) h = elim (Bool-cases (is_word c)) [
  | inr e ↦ absurd (cc (simp e at h))
  | inl word ↦ elim (Bool-cases (c == b'_')) [
    | inl e ↦ absurd (cc (simp (word, e) at h))
    | inr plain ↦ ((word, plain), part_chars k (simp (word, plain) at h))
  ]
]

all_words_plain : (k : Bytes) → All IsPlainChar k → all_words k ≡ true
all_words_plain [] h = refl
all_words_plain (c ∷ k) ((word, plain), h) = simp (word, all_words_plain k h) refl

-- A function's name.
unfoldable pub is_name : Bytes → Bool
is_name k = is_part k && ltb 0 (length k)

pub is_name-IsPart : (k : Bytes) → is_name k ≡ true → IsPart k
unfolding is_name
is_name-IsPart k h = elim (Bool-cases (is_part k)) [
  | inr e ↦ absurd (cc (simp e at h))
  | inl e ↦ (ltb→lt 0 (length k) (simp e at h), part_chars k e)
]

pub functions_keys :
    (keys is_name dh_str_byte ≡ true)
    × (keys is_name cipher_str_byte ≡ true)
    × (keys is_name hash_str_byte ≡ true)
unfolding is_name is_word
functions_keys = (refl, refl, refl)

last_group-IsPart : (h : Bytes) → IsPart h → last_group h ≡ some h
unfolding last_group
last_group-IsPart h (some_left, plain) =
    let full = lt→ltb 0 (length h) some_left in simp (full, all_words_plain h plain) refl

pub function_groups-text :
    (d c h : Bytes)
    → IsPart d
    → IsPart c
    → IsPart h
    → function_groups (functions_text d c h) ≡ some (d, (c, h))
unfolding function_groups
function_groups-text d c h (d_left, hd) (c_left, hc) (h_left, hh) =
    let last = last_group-IsPart h (h_left, hh) in
    let no_more : (s : Bytes) → word_group last_group s h ≡ none =
      λ s. word_group_unmatched last_group s h hh in
    let two = word_group_part last_group [] c h h hc (omega arith) (no_more _) last in
    let k : Bytes → Option (Bytes × Bytes) = word_group last_group [] in
    word_group_part k [] d (c ++ underscore ∷ h) (c, h) hd (omega arith)
      (word_group_fails k (([] ++ d) ++ underscore ∷ []) c h hc hh (no_more [])) two

last_group_sound : (s g : Bytes) → last_group s ≡ some g → s ≡ g
unfolding last_group
last_group_sound s g h = elim (Bool-cases (ltb 0 (length s) && all_words s)) [
  | inl e ↦ cc (simp e at h)
  | inr e ↦ absurd (cc (simp e at h))
]

pub function_groups_sound :
    (s d c h : Bytes) → function_groups s ≡ some (d, (c, h)) → s ≡ functions_text d c h
unfolding function_groups
function_groups_sound [] d c h found = cc
function_groups_sound (x ∷ s) d c h found = elim (Bool-cases (x == b'_')) [
  | inr e ↦ absurd (cc (simp e at found))
  | inl e ↦
      let (s1, split1, found1) =
        word_group_sound (word_group last_group []) [] s d (c, h) (simp e at found) in
      let (s2, split2, found2) = word_group_sound last_group [] s1 c h found1 in
      let last : s2 ≡ h = last_group_sound s2 h found2 in
      let first : x ≡ underscore = (==_iff x underscore).0 e in cc
]

-- No placement, where the text goes on with an underscore.
psk_group_absent : (s : Bytes) → psk_group (underscore ∷ s) ≡ (none, underscore ∷ s)
unfolding psk_group
psk_group_absent [] = refl
psk_group_absent (a ∷ []) = refl
psk_group_absent (a ∷ b ∷ []) = refl
psk_group_absent (a ∷ b ∷ c ∷ s) = refl

psk_digit : (n : ℕ) → n ≤ 3 → is_psk_digit (b'0' + n) ≡ true
psk_digit n h = ground arith

pub psk_group-psk_text :
    (psk : Option ℕ) (s : Bytes)
    → IsPlacement psk
    → psk_group (psk_text psk ++ underscore ∷ s) ≡ (psk, underscore ∷ s)
unfolding psk_group
psk_group-psk_text none s fits = psk_group_absent s
psk_group-psk_text (some n) s fits =
    let digit = psk_digit n fits in
    let same : b'0' + n - b'0' ≡ n = omega arith in simp (digit, same) refl

psk_chars :
    (p s k n : ℕ)
    → (p == b'p' && s == b's' && k == b'k' && is_psk_digit n) ≡ true
    → (p ≡ b'p') × (s ≡ b's') × (k ≡ b'k') × (b'0' + (n - b'0') ≡ n) × (n - b'0' ≤ 3)
psk_chars p s k n h = ground arith

pub psk_group_sound :
    (s : Bytes)
    → (s ≡ psk_text ((psk_group s).0) ++ (psk_group s).1) × IsPlacement ((psk_group s).0)
unfolding psk_group
psk_group_sound [] = (refl, tt)
psk_group_sound (p ∷ []) = (refl, tt)
psk_group_sound (p ∷ s ∷ []) = (refl, tt)
psk_group_sound (p ∷ s ∷ k ∷ []) = (refl, tt)
psk_group_sound (p ∷ s ∷ k ∷ n ∷ rest) =
    elim (Bool-cases (p == b'p' && s == b's' && k == b'k' && is_psk_digit n)) [
      | inr e ↦ simp e (refl, tt)
      | inl e ↦
          let (is_p, is_s, is_k, is_n, fits) = psk_chars p s k n e in
          let text : p ∷ s ∷ k ∷ n ∷ rest ≡ psk_text (some (n - b'0')) ++ rest = cc in
          simp e (text, fits)
    ]

strip-append : (s : Bytes) → strip noise_prefix (noise_prefix ++ s) ≡ some s
unfolding strip
strip-append s = refl

pub strip_sound : (p s r : Bytes) → strip p s ≡ some r → s ≡ p ++ r
unfolding strip
strip_sound [] s r h = cc
strip_sound (c ∷ p) [] r h = cc
strip_sound (c ∷ p) (x ∷ s) r h = elim (Bool-cases (c == x)) [
  | inr e ↦ absurd (cc (simp e at h))
  | inl e ↦ let same : c ≡ x = (==_iff c x).0 e in let rec = strip_sound p s r (simp e at h) in cc
]
