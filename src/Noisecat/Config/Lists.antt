-- ===== src/Noisecat/Config/Lists.antt =====
-- splitList: what it returns, and what it reads back.
use noisecat.Base.{
  ℕ, ◌++◌, ◌≡◌, ◌≢◌, ◌⊎◌, ◌∙◌, sym, ap, refl, inl, inr, false, ◌&&◌, List, [], ◌∷◌, Bytes, All,
  All-append, is_blank, is_blank-false, nonempty-is_blank, ◌==◌, Bool-cases, append-nil,
  append_assoc,
}
use noisecat.Noisecat.Config.{
  comma, split_commas, is_space, trim_left, trim_right, trim_space, keep_parts, split_list,
}

abbrev pub IsNoComma : ℕ → Type 0
IsNoComma c = (c == comma) ≡ false

-- An item of a list: not empty, without a comma and without white space around it.
abbrev pub IsItem : Bytes → Type 0
IsItem p = (p ≢ []) × (trim_space p ≡ p) × All IsNoComma p

-- The items, with ", " between them.
abbrev pub join_items : List Bytes → Bytes
join_items [] = []
join_items (p ∷ []) = p
join_items (p ∷ q ∷ ps) = p ++ comma ∷ 32 ∷ join_items (q ∷ ps)

trim_left_head :
    (s : Bytes)
    → (trim_left s ≡ []) ⊎ ((c : ℕ) × (t : Bytes) × (trim_left s ≡ c ∷ t) × (is_space c ≡ false))
unfolding trim_left
trim_left_head [] = inl refl
trim_left_head (c ∷ s) = elim (Bool-cases (is_space c)) [
  | inl e ↦ simp e (trim_left_head s)
  | inr e ↦ inr (c, s, simp e refl, e)
]

trim_right_twice : (s : Bytes) → trim_right (trim_right s) ≡ trim_right s
unfolding trim_right
trim_right_twice [] = refl
trim_right_twice (c ∷ s) = elim (Bool-cases (is_space c && is_blank (trim_right s))) [
  | inl e ↦ simp e refl
  | inr e ↦ simp (e, trim_right_twice s) refl
]

trim_space_twice : (s : Bytes) → trim_space (trim_space s) ≡ trim_space s
unfolding trim_space trim_left trim_right
trim_space_twice s = elim (trim_left_head s) [
  | inl e ↦ simp e refl
  | inr (c, t, e, kept) ↦ simp (e, kept, trim_right_twice t) refl
]

module _ (P : ℕ → Type 0) where
  All-trim_left : (s : Bytes) → All P s → All P (trim_left s)
  unfolding trim_left
  All-trim_left [] h = h
  All-trim_left (c ∷ s) (hc, hs) = elim (Bool-cases (is_space c)) [
    | inl e ↦ simp e (All-trim_left s hs)
    | inr e ↦ simp e (hc, hs)
  ]

  All-trim_right : (s : Bytes) → All P s → All P (trim_right s)
  unfolding trim_right
  All-trim_right [] h = h
  All-trim_right (c ∷ s) (hc, hs) = elim (Bool-cases (is_space c && is_blank (trim_right s))) [
    | inl e ↦ simp e tt
    | inr e ↦ simp e (hc, All-trim_right s hs)
  ]

split_commas_plain :
    (so_far s : Bytes) → All IsNoComma so_far → All (All IsNoComma) (split_commas so_far s)
unfolding split_commas
split_commas_plain so_far [] h = (h, tt)
split_commas_plain so_far (c ∷ s) h = elim (Bool-cases (c == comma)) [
  | inl e ↦ simp e (h, split_commas_plain [] s tt)
  | inr e ↦
      simp e
        (split_commas_plain (so_far ++ c ∷ []) s (All-append IsNoComma so_far (c ∷ []) h (e, tt)))
]

keep_parts-IsItem : (parts : List Bytes) → All (All IsNoComma) parts → All IsItem (keep_parts parts)
unfolding keep_parts trim_space
keep_parts-IsItem [] h = tt
keep_parts-IsItem (p ∷ parts) (hp, hs) = elim (Bool-cases (is_blank (trim_space p))) [
  | inl e ↦ simp e (keep_parts-IsItem parts hs)
  | inr e ↦ simp e (
    (
      is_blank-false (trim_space p) e,
      trim_space_twice p,
      All-trim_right IsNoComma (trim_left p) (All-trim_left IsNoComma p hp),
    ),
    keep_parts-IsItem parts hs,
  )
]

-- What splitList returns, whatever the text: items that are not empty, have no comma and no white
-- space around them.
pub split_list-IsItem : (s : Bytes) → All IsItem (split_list s)
unfolding split_list
split_list-IsItem s = elim (Bool-cases (is_blank s)) [
  | inl e ↦ simp e tt
  | inr e ↦ simp e (keep_parts-IsItem (split_commas [] s) (split_commas_plain [] s tt))
]

split_commas_last :
    (so_far s : Bytes) → All IsNoComma s → split_commas so_far s ≡ (so_far ++ s) ∷ []
unfolding split_commas
split_commas_last so_far [] h = ap (λ x. x ∷ []) (sym (append-nil so_far))
split_commas_last so_far (c ∷ s) (hc, hs) =
    simp (hc, split_commas_last (so_far ++ c ∷ []) s hs, append_assoc so_far (c ∷ []) s) refl

split_commas_next :
    (so_far s rest : Bytes)
    → All IsNoComma s
    → split_commas so_far (s ++ comma ∷ rest) ≡ (so_far ++ s) ∷ split_commas [] rest
unfolding split_commas
split_commas_next so_far [] rest h = ap (λ x. x ∷ split_commas [] rest) (sym (append-nil so_far))
split_commas_next so_far (c ∷ s) rest (hc, hs) =
    simp (hc, split_commas_next (so_far ++ c ∷ []) s rest hs, append_assoc so_far (c ∷ []) s) refl

-- A text that trimming takes away.
abbrev Pad : Bytes → Type 0
Pad pre = (p : Bytes) → trim_space p ≡ p → trim_space (pre ++ p) ≡ p

space-Pad : Pad (32 ∷ [])
unfolding trim_space trim_left is_space
space-Pad p h = h

keep_one :
    (p : Bytes) (raw : Bytes) (parts : List Bytes)
    → p ≢ []
    → trim_space raw ≡ p
    → keep_parts (raw ∷ parts) ≡ p ∷ keep_parts parts
unfolding keep_parts
keep_one p raw parts some_left trimmed = simp (trimmed, nonempty-is_blank p some_left) refl

keep_parts-join :
    (pre p : Bytes) (ps : List Bytes)
    → Pad pre
    → All IsItem (p ∷ ps)
    → keep_parts (split_commas pre (join_items (p ∷ ps))) ≡ p ∷ ps
unfolding split_commas keep_parts
keep_parts-join pre p [] pad ((some_left, trimmed, plain), hs) =
    ap keep_parts (split_commas_last pre p plain)
    ∙ keep_one p (pre ++ p) [] some_left (pad p trimmed)
keep_parts-join pre p (q ∷ ps) pad ((some_left, trimmed, plain), hs) =
    ap keep_parts (split_commas_next pre p (32 ∷ join_items (q ∷ ps)) plain)
    ∙ (keep_one p (pre ++ p) (split_commas (32 ∷ []) (join_items (q ∷ ps))) some_left
          (pad p trimmed)
        ∙ ap (λ x. p ∷ x) (keep_parts-join (32 ∷ []) q ps space-Pad hs))

append-is_blank : (p s : Bytes) → p ≢ [] → is_blank (p ++ s) ≡ false
append-is_blank [] s h = absurd (h refl)
append-is_blank (c ∷ p) s h = refl

join_items-is_blank :
    (p : Bytes) (ps : List Bytes) → p ≢ [] → is_blank (join_items (p ∷ ps)) ≡ false
join_items-is_blank p [] h = nonempty-is_blank p h
join_items-is_blank p (q ∷ ps) h = append-is_blank p (comma ∷ 32 ∷ join_items (q ∷ ps)) h

-- A list of items written with ", " between them is read back, item by item.
pub split_list-join_items : (ps : List Bytes) → All IsItem ps → split_list (join_items ps) ≡ ps
unfolding split_list
split_list-join_items [] h = refl
split_list-join_items (p ∷ ps) (hp, hs) =
    simp (join_items-is_blank p ps (hp.0), keep_parts-join [] p ps (λ p h. h) (hp, hs)) refl
