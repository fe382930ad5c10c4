-- ===== src/Noisecat/Names/Match.antt =====
-- The groups of protocolRegexp on texts whose parts have no underscore of their own, and back.
use noisecat.Base.{
  ℕ, ◌+◌, ◌<◌, ◌++◌, ◌≡◌, ◌∙◌, sym, refl, arith, true, false, ◌&&◌, Option, none, some, [], ◌∷◌,
  Bytes, length, length-append, All, ltb, lt→ltb, ◌==◌, ==_iff, if◌then◌else◌, Bool-cases,
  Option-cases, inl, inr, append_assoc, append-nil,
}
use noisecat.Noisecat.Names.{is_word, paired, word_group}

abbrev pub underscore : ℕ
underscore = b'_'

-- A letter or a digit.
abbrev pub IsPlainChar : ℕ → Type 0
IsPlainChar c = (is_word c ≡ true) × ((c == b'_') ≡ false)

-- A part of a name.
abbrev pub IsPart : Bytes → Type 0
IsPart w = (0 < length w) × All IsPlainChar w

underscore-is_word : is_word underscore ≡ true
unfolding is_word
underscore-is_word = refl

module _ {ℓ} {A : Type ℓ} (k : Bytes → Option A) where
  -- Without an underscore there is nothing to stop at.
  pub word_group_unmatched : (so_far s : Bytes) → All IsPlainChar s → word_group k so_far s ≡ none
  unfolding word_group
  word_group_unmatched so_far [] h = refl
  word_group_unmatched so_far (c ∷ s) ((word, plain), hs) =
      simp (word, plain, word_group_unmatched (so_far ++ c ∷ []) s hs) refl

  -- Nor where what follows the only one does not match.
  pub word_group_fails :
      (so_far w rest : Bytes)
      → All IsPlainChar w
      → All IsPlainChar rest
      → k rest ≡ none
      → word_group k so_far (w ++ underscore ∷ rest) ≡ none
  unfolding word_group
  word_group_fails so_far [] rest hw hr fails = elim (Bool-cases (ltb 0 (length so_far))) [
    | inl e ↦
        simp
          (underscore-is_word, e, word_group_unmatched (so_far ++ underscore ∷ []) rest hr, fails)
          refl
    | inr e ↦
        simp (underscore-is_word, e, word_group_unmatched (so_far ++ underscore ∷ []) rest hr) refl
  ]
  word_group_fails so_far (c ∷ w) rest ((word, plain), hw) hr fails =
      simp (word, plain, word_group_fails (so_far ++ c ∷ []) w rest hw hr fails) refl

  -- The group ends at the underscore where it cannot go on behind it.
  pub word_group_part :
      (so_far w rest : Bytes) (x : A)
      → All IsPlainChar w
      → 0 < length so_far + length w
      → word_group k ((so_far ++ w) ++ underscore ∷ []) rest ≡ none
      → k rest ≡ some x
      → word_group k so_far (w ++ underscore ∷ rest) ≡ some (so_far ++ w, x)
  unfolding word_group
  word_group_part so_far [] rest x hw some_left stops matches =
      let whole : so_far ++ [] ≡ so_far = append-nil so_far in
      let stops' = rw whole at stops in
      let started : ltb 0 (length so_far) ≡ true = lt→ltb 0 (length so_far) (omega arith) in
      simp (underscore-is_word, stops', started, matches, whole) refl
  word_group_part so_far (c ∷ w) rest x ((word, plain), hw) some_left stops matches =
      let same : (so_far ++ c ∷ []) ++ w ≡ so_far ++ (c ∷ w) = append_assoc so_far (c ∷ []) w in
      let rec =
        word_group_part (so_far ++ c ∷ []) w rest x hw
          (omega (arith, length-append so_far (c ∷ []))) (rw same stops) matches in
      simp (word, plain, rec, same) refl

  none_some : {B : Type ℓ} {C : Type ℓ} {y : B} → none ≡ some y → C
  none_some e = absurd (cc e)

  stopped_sound :
      (so_far s : Bytes) (c : ℕ) (g : Bytes) (x : A)
      → (if c == b'_' && ltb 0 (length so_far) then paired so_far (k s) else none) ≡ some (g, x)
      → (rest : Bytes) × (so_far ++ c ∷ s ≡ g ++ underscore ∷ rest) × (k rest ≡ some x)
  stopped_sound so_far s c g x h = elim (Bool-cases (c == b'_')) [
    | inr other ↦ none_some (simp other at h)
    | inl e ↦ elim (Bool-cases (ltb 0 (length so_far))) [
      | inr empty ↦ none_some (simp (e, empty) at h)
      | inl full ↦ elim (Option-cases (k s)) [
        | inl failed ↦ none_some (simp (e, full, failed) at h)
        | inr (y, matched) ↦
            let h' : some (so_far, y) ≡ some (g, x) = simp (e, full, matched) at h in
            let is : c ≡ underscore = (==_iff c underscore).0 e in (s, cc, cc)
      ]
    ]
  ]

  -- What a match says: the text is the group, an underscore and what `k` matched.
  pub word_group_sound :
      (so_far s g : Bytes) (x : A)
      → word_group k so_far s ≡ some (g, x)
      → (rest : Bytes) × (so_far ++ s ≡ g ++ underscore ∷ rest) × (k rest ≡ some x)
  unfolding word_group
  word_group_sound so_far [] g x h = cc
  word_group_sound so_far (c ∷ s) g x h = elim (Bool-cases (is_word c)) [
    | inr other ↦ none_some (simp other at h)
    | inl word ↦ elim (Option-cases (word_group k (so_far ++ c ∷ []) s)) [
      | inr ((g', x'), e) ↦
          let h' : some (g', x') ≡ some (g, x) = simp (word, e) at h in
          let (rest, split, matched) = word_group_sound (so_far ++ c ∷ []) s g x (e ∙ h') in
          (rest, sym (append_assoc so_far (c ∷ []) s) ∙ split, matched)
      | inl e ↦ stopped_sound so_far s c g x (simp (word, e) at h)
    ]
  ]
