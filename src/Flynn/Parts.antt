-- ===== src/Flynn/Parts.antt =====
-- A byte string cut into parts of at most `max` bytes, as the loops of conn.Write cut it.
use noisecat.Base.{
  ℕ, zero, suc, ◌+◌, ◌<◌, ◌≤◌, ◌++◌, ◌≡◌, refl, arith, List, [], ◌∷◌, Bytes, length, take, drop,
  min, All, length-take, length-drop, take-append-drop,
}

abbrev pub size_of : ℕ → Bytes → ℕ
size_of max p = min (length p) max

unfoldable pub cut : ℕ → ℕ → Bytes → List Bytes
cut max fuel [] = []
cut max zero (b ∷ p) = []
cut max (suc fuel) (b ∷ p) =
    take (size_of max (b ∷ p)) (b ∷ p) ∷ cut max fuel (drop (size_of max (b ∷ p)) (b ∷ p))

abbrev pub concat : List Bytes → Bytes
concat [] = []
concat (p ∷ ps) = p ++ concat ps

pub round_takes :
    (max b : ℕ) (p : Bytes) → 0 < max → length (drop (size_of max (b ∷ p)) (b ∷ p)) ≤ length p
round_takes max b p h = omega (arith, length-drop (size_of max (b ∷ p)) (b ∷ p))

pub part_short : (max : ℕ) (p : Bytes) → length (take (size_of max p) p) ≤ max
part_short max p = omega (arith, length-take (size_of max p) p)

pub round_total :
    (max : ℕ) (p : Bytes) (total : ℕ)
    → total + size_of max p + length (drop (size_of max p) p) ≡ total + length p
round_total max p total = omega (arith, length-drop (size_of max p) p)

pub concat-cut :
    (max fuel : ℕ) (p : Bytes) → 0 < max → length p ≤ fuel → concat (cut max fuel p) ≡ p
unfolding cut
concat-cut max zero [] h enough = refl
concat-cut max (suc fuel) [] h enough = refl
concat-cut max zero (b ∷ p) h enough = absurd (omega arith)
concat-cut max (suc fuel) (b ∷ p) h enough =
    let q : Bytes = b ∷ p in
    let n = size_of max q in
    rw (concat-cut max fuel (drop n q) h (omega (arith, round_takes max b p h)))
      (take-append-drop n q)

-- No part is empty.
pub cut_some : (max fuel : ℕ) (p : Bytes) → 0 < max → All (λ q. 0 < length q) (cut max fuel p)
unfolding cut
cut_some max zero [] h = tt
cut_some max (suc fuel) [] h = tt
cut_some max zero (b ∷ p) h = tt
cut_some max (suc fuel) (b ∷ p) h = (
  omega (arith, length-take (size_of max (b ∷ p)) (b ∷ p)),
  cut_some max fuel (drop (size_of max (b ∷ p)) (b ∷ p)) h,
)

pub cut_short : (max fuel : ℕ) (p : Bytes) → All (λ q. length q ≤ max) (cut max fuel p)
unfolding cut
cut_short max zero [] = tt
cut_short max (suc fuel) [] = tt
cut_short max zero (b ∷ p) = tt
cut_short max (suc fuel) (b ∷ p) =
    (part_short max (b ∷ p), cut_short max fuel (drop (size_of max (b ∷ p)) (b ∷ p)))
