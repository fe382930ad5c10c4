-- ===== src/Whatsapp/Varint.antt =====
-- The base-128 integers of pkg/transport/whatsapp/proto.go, and binary.Uvarint of the standard
-- library, which reads them.
use native.Mathlib.Nat.{div-add-mod}
use native.Mathlib.Numerals.{towards_suc}
use noisecat.Base.{
  ℕ, zero, suc, ◌+◌, ◌*◌, ◌/◌, ◌%◌, ◌^◌, ◌<◌, ◌≤◌, ◌++◌, ◌≡◌, inl, inr, Bool-cases, refl, ap, ◌∙◌,
  arith, ◌&&◌, [], ◌∷◌, Bytes, length, ◌==◌, ltb, leb, if◌then◌else◌, Option, none, some,
  append_assoc, length-append,
}

-- The loop of appendVarint: `byte(v)|0x80` while `v >= 0x80`, then `byte(v)`.
unfoldable pub append_varint_loop : ℕ → Bytes → ℕ → Bytes
append_varint_loop zero b v = b ++ (v % 256) ∷ []
append_varint_loop (suc fuel) b v =
    let more = append_varint_loop fuel (b ++ (v % 128 + 128) ∷ []) (v / 128) in
    if leb 128 v then more else b ++ (v % 256) ∷ []

-- A uint64 has ten groups of seven bits, so that nine rounds are enough.
unfoldable pub append_varint : Bytes → ℕ → Bytes
unfolding append_varint_loop
append_varint b v = append_varint_loop 9 b v

-- binary.Uvarint. `i` counts the bytes and `s` is `7 * i`; what is or-ed in lies above what is there.
unfoldable pub uvarint_loop : Bytes → ℕ → ℕ → ℕ → Option (ℕ × Bytes)
uvarint_loop [] i x s = none
uvarint_loop (b ∷ rest) i x s =
    let more = uvarint_loop rest (i + 1) (x + b % 128 * 2 ^ s) (s + 7) in
    if i == 10
    then none
    else if leb 128 b
    then more
    else if i == 9 && ltb 1 b
    then none
    else some (x + b * 2 ^ s, rest)

-- The number and the bytes behind it; `none` is a count that is not positive.
unfoldable pub uvarint : Bytes → Option (ℕ × Bytes)
unfolding uvarint_loop
uvarint b = uvarint_loop b 0 0 0

append_varint_loop-append :
    (fuel : ℕ) (b : Bytes) (v : ℕ) → append_varint_loop fuel b v ≡ b ++ append_varint_loop fuel [] v
unfolding append_varint_loop
append_varint_loop-append zero b v = refl
append_varint_loop-append (suc fuel) b v = ground (
  arith,
  append_varint_loop-append fuel (b ++ (v % 128 + 128) ∷ []) (v / 128),
  append_varint_loop-append fuel ((v % 128 + 128) ∷ []) (v / 128),
  append_assoc b ((v % 128 + 128) ∷ []) (append_varint_loop fuel [] (v / 128)),
)

pub append_varint-append : (b : Bytes) (v : ℕ) → append_varint b v ≡ b ++ append_varint [] v
unfolding append_varint
append_varint-append b v = append_varint_loop-append 9 b v

shift_seven : (s : ℕ) → 2 ^ (s + 7) ≡ 128 * 2 ^ s
shift_seven s = simp towards_suc (omega arith)

-- The lowest group of `v` and what is above it, counted from bit `s` on.
split_group : (v s : ℕ) → v * 2 ^ s ≡ v % 128 * 2 ^ s + v / 128 * 2 ^ (s + 7)
split_group v s = omega (
  arith,
  ap (λ (t : ℕ). t * 2 ^ s) (div-add-mod v 128),
  ap (λ (t : ℕ). v / 128 * t) (shift_seven s),
)

-- A last byte, and a byte that says that more follow.
uvarint_loop_last :
    (v i x s : ℕ) (rest : Bytes)
    → v < 128
    → i < 10
    → (i ≡ 9 → v ≤ 1)
    → uvarint_loop (v ∷ rest) i x s ≡ some (x + v * 2 ^ s, rest)
unfolding uvarint_loop
uvarint_loop_last v i x s rest hv hi top = ground arith

uvarint_loop_more :
    (g i x s : ℕ) (rest : Bytes)
    → g < 128
    → i < 10
    → uvarint_loop ((g + 128) ∷ rest) i x s ≡ uvarint_loop rest (i + 1) (x + g * 2 ^ s) (s + 7)
unfolding uvarint_loop
uvarint_loop_more g i x s rest hg hi =
    let low : (g + 128) % 128 ≡ g = omega arith in rw low (ground arith)

-- The tenth byte has room for one bit.
top_group : (v i s : ℕ) → s ≡ 7 * i → v * 2 ^ s < 2 ^ 64 → i ≡ 9 → v ≤ 1
top_group v i s hs fits e =
    let at_top : s ≡ 63 = omega arith in let fits' = rw at_top at fits in omega (arith, fits')

uvarint_loop-append_varint_loop :
    (fuel v i x s : ℕ) (rest : Bytes)
    → v < 128 ^ suc fuel
    → fuel + i ≡ 9
    → s ≡ 7 * i
    → v * 2 ^ s < 2 ^ 64
    → uvarint_loop (append_varint_loop fuel [] v ++ rest) i x s ≡ some (x + v * 2 ^ s, rest)
unfolding append_varint_loop uvarint_loop
uvarint_loop-append_varint_loop zero v i x s rest low hi hs fits =
    let one : v % 256 ≡ v = omega arith in
    rw one (uvarint_loop_last v i x s rest (omega arith) (omega arith) (top_group v i s hs fits))
uvarint_loop-append_varint_loop (suc fuel) v i x s rest low hi hs fits =
    elim (Bool-cases (leb 128 v)) [
      | inl more ↦
          let group = v % 128 in
          let above = v / 128 in
          let rec =
            uvarint_loop-append_varint_loop fuel above (i + 1) (x + group * 2 ^ s) (s + 7) rest
              (omega arith) (omega arith) (omega arith) (omega (arith, split_group v s)) in
          let whole : x + group * 2 ^ s + above * 2 ^ (s + 7) ≡ x + v * 2 ^ s =
            omega (arith, split_group v s) in
          rw (more, append_varint_loop-append fuel ((group + 128) ∷ []) above)
            (uvarint_loop_more group i x s _ (omega arith) (omega arith) ∙ rec ∙ rw whole refl)
      | inr last ↦
          let small : v < 128 = ground arith in
          let one : v % 256 ≡ v = omega arith in
          rw (last, one)
            (uvarint_loop_last v i x s rest small (omega arith) (top_group v i s hs fits))
    ]

-- Reading what appendVarint wrote gives the uint64 back, and leaves what follows.
pub uvarint-append_varint :
    (v : ℕ) (rest : Bytes) → v < 2 ^ 64 → uvarint (append_varint [] v ++ rest) ≡ some (v, rest)
unfolding uvarint append_varint
uvarint-append_varint v rest h =
    let whole : 0 + v * 2 ^ 0 ≡ v = omega arith in
    uvarint_loop-append_varint_loop 9 v 0 0 0 rest (omega arith) refl refl (omega arith)
    ∙ rw whole refl

uvarint_loop_takes :
    (b : Bytes) (i x s v : ℕ) (rest : Bytes)
    → uvarint_loop b i x s ≡ some (v, rest)
    → length rest < length b
unfolding uvarint_loop
uvarint_loop_takes [] i x s v rest e = cc
uvarint_loop_takes (b ∷ bs) i x s v rest e =
    ground (arith, uvarint_loop_takes bs (i + 1) (x + b % 128 * 2 ^ s) (s + 7) v rest)

-- A number takes a byte at least.
pub uvarint_takes :
    (b : Bytes) (v : ℕ) (rest : Bytes) → uvarint b ≡ some (v, rest) → length rest < length b
unfolding uvarint
uvarint_takes b v rest e = uvarint_loop_takes b 0 0 0 v rest e

length-append_varint_loop :
    (fuel : ℕ) (b : Bytes) (v : ℕ) → length (append_varint_loop fuel b v) ≤ length b + suc fuel
unfolding append_varint_loop
length-append_varint_loop zero b v = omega (arith, length-append b ((v % 256) ∷ []))
length-append_varint_loop (suc fuel) b v = ground (
  arith,
  length-append_varint_loop fuel (b ++ (v % 128 + 128) ∷ []) (v / 128),
  length-append b ((v % 128 + 128) ∷ []),
  length-append b ((v % 256) ∷ []),
)

pub length-append_varint : (v : ℕ) → length (append_varint [] v) ≤ 10
unfolding append_varint
length-append_varint v = length-append_varint_loop 9 [] v
