-- ===== src/Whatsapp/Proto/Bounds.antt =====
-- What the parser of proto.go bounds: rounds, fields, bytes.
use noisecat.Base.{
  ℕ, zero, suc, ◌+◌, ◌/◌, ◌%◌, ◌<◌, ◌≤◌, ◌++◌, min, ◌-◌, ◌≡◌, ◌≢◌, arith, Bool, true, false, ◌==◌,
  List, [], ◌∷◌, Option, none, some, Bytes, length, take, drop, leb, ltb, if◌then◌else◌, ltb-false,
  length-append, not, Bool-cases, Option-cases, inl, inr, length-take, length-drop, Error, Result,
  ok, err, text, panics,
}
use noisecat.Results.{◌>>◌, require}
use noisecat.Whatsapp.Varint.{uvarint, uvarint_takes}
use noisecat.Whatsapp.Proto.{
  PbField, read_varint_field, read_len_field, skip_field, keep, read_field, read_value, pb_loop,
  pb_parse, max_pb_fields,
}

abbrev pub no_fuel : Error
no_fuel = panics "out of fuel"

-- The bytes that a field holds.
abbrev pub data_length : Option PbField → ℕ
data_length none = 0
data_length (some f) = elim f.bytes [ none ↦ 0 | some b ↦ length b ]

abbrev pub total : List PbField → ℕ
total [] = 0
total (f ∷ fs) = data_length (some f) + total fs

-- A failure that is not of fuel, or at most 64 fields that hold at most `n` bytes.
abbrev pub Sound : ℕ → Result (List PbField) → Type 0
Sound n (ok fs) = (length fs ≤ max_pb_fields) × (total fs ≤ n)
Sound n (err e) = e ≢ no_fuel

-- What is read lies within the bytes that are there; a failure is not of fuel.
abbrev Within : ℕ → Result (Option PbField × Bytes) → Type 0
Within n (ok (f, rest)) = data_length f + length rest ≤ n
Within n (err e) = e ≢ no_fuel

abbrev Shorter : Bytes → Result (Option PbField × Bytes) → Type 0
Shorter b (ok (f, rest)) = data_length f + length rest < length b
Shorter b (err e) = e ≢ no_fuel

read_varint_field-Within : (num : ℕ) (b : Bytes) → Within (length b) (read_varint_field num b)
unfolding read_varint_field
read_varint_field-Within num b = elim (Option-cases (uvarint b)) [
  | inl n ↦ rw n (λ e. cc)
  | inr ((v, rest), e) ↦ rw e (omega (arith, uvarint_takes b v rest e))
]

len_Within :
    (num l n : ℕ) (rest : Bytes)
    → length rest < n
    → Within n (do
      require (not (ltb (length rest) l)) (text "whatsapp: protobuf length exceeds buffer")
      ok (some (record { num = num; wire = 2; bytes = some (take l rest); val = 0 }), drop l rest))
len_Within num l n rest h = elim (Bool-cases (ltb (length rest) l)) [
  | inl e ↦ rw e (λ e. cc)
  | inr e ↦
      let fits : l ≤ length rest = ltb-false (length rest) l e in
      let front : length (take l rest) ≡ min l (length rest) = length-take l rest in
      let back : length (drop l rest) ≡ length rest - l = length-drop l rest in
      rw e (omega (arith, fits, front, back))
]

read_len_field-Within : (num : ℕ) (b : Bytes) → Within (length b) (read_len_field num b)
unfolding read_len_field
read_len_field-Within num b = elim (Option-cases (uvarint b)) [
  | inl n ↦ rw n (λ e. cc)
  | inr ((l, rest), e) ↦ rw e (len_Within num l (length b) rest (uvarint_takes b l rest e))
]

skip_field-Within :
    (n : ℕ) (e : Error) (b : Bytes) → e ≢ no_fuel → Within (length b) (skip_field n e b)
unfolding skip_field
skip_field-Within n e b h = elim (Bool-cases (ltb (length b) n)) [
  | inl t ↦ rw t h
  | inr t ↦ rw t (omega (arith, length-drop n b))
]

-- The choice of a case keeps what every case has.
if-Within :
    (n : ℕ) (t : Bool) (x y : Result (Option PbField × Bytes))
    → Within n x
    → Within n y
    → Within n (if t then x else y)
if-Within n true x y hx hy = hx
if-Within n false x y hx hy = hy

read_value-Within : (num wire : ℕ) (b : Bytes) → Within (length b) (read_value num wire b)
unfolding read_value read_varint_field read_len_field skip_field
read_value-Within num wire b = if-Within _ (wire == 0) _ _ (read_varint_field-Within num b) (
    if-Within _ (wire == 2) _ _ (read_len_field-Within num b) (
      if-Within _ (wire == 5) _ _ (skip_field-Within 4 _ b (λ e. cc))
        (if-Within _ (wire == 1) _ _ (skip_field-Within 8 _ b (λ e. cc)) (λ e. cc))))

shorten :
    (b rest : Bytes) (r : Result (Option PbField × Bytes))
    → length rest < length b
    → Within (length rest) r
    → Shorter b r
shorten b rest (ok (f, x)) h w = omega (arith, w)
shorten b rest (err e) h w = w

pub read_field-Shorter : (b : Bytes) → Shorter b (read_field b)
unfolding read_field
read_field-Shorter b = elim (Option-cases (uvarint b)) [
  | inl n ↦ rw n (λ e. cc)
  | inr ((tag, rest), e) ↦
      rw e
        (shorten b rest _ (uvarint_takes b tag rest e) (read_value-Within (tag / 8) (tag % 8) rest))
]

total-append :
    (fs : List PbField) (f : PbField) → total (fs ++ f ∷ []) ≡ total fs + data_length (some f)
total-append [] f = omega arith
total-append (g ∷ fs) f = omega (arith, total-append fs f)

keep_few :
    (out : List PbField) (f : Option PbField)
    → length out < max_pb_fields
    → length (keep out f) ≤ max_pb_fields
keep_few out none h = omega arith
keep_few out (some f) h = omega (arith, length-append out (f ∷ []))

total-keep :
    (out : List PbField) (f : Option PbField) → total (keep out f) ≡ total out + data_length f
total-keep out none = omega arith
total-keep out (some f) = total-append out f

-- What the loop does with the field that it read.
next_Sound :
    (fuel : ℕ) (out : List PbField) (b : Bytes) (n : ℕ) (r : Result (Option PbField × Bytes))
    → Shorter b r
    → length b ≤ suc fuel
    → length out < max_pb_fields
    → total out + length b ≤ n
    → ((out' : List PbField) (b' : Bytes)
        → length b' ≤ fuel
        → length out' ≤ max_pb_fields
        → total out' + length b' ≤ n
        → Sound n (pb_loop fuel out' b'))
    → Sound n (elim r [ ok (f, rest) ↦ pb_loop fuel (keep out f) rest | err e ↦ err e ])
next_Sound fuel out b n (ok (f, rest)) shorter enough few small rec =
    rec (keep out f) rest (omega (arith, shorter)) (keep_few out f few)
      (omega (arith, shorter, total-keep out f))
next_Sound fuel out b n (err e) shorter enough few small rec = shorter

pb_loop-Sound :
    (n fuel : ℕ) (out : List PbField) (b : Bytes)
    → length b ≤ fuel
    → length out ≤ max_pb_fields
    → total out + length b ≤ n
    → Sound n (pb_loop fuel out b)
unfolding pb_loop
pb_loop-Sound n fuel out [] enough few small = (few, omega arith)
pb_loop-Sound n zero out (c ∷ b) enough few small = absurd (omega arith)
pb_loop-Sound n (suc fuel) out (c ∷ b) enough few small =
    elim (Bool-cases (leb max_pb_fields (length out))) [
      | inl full ↦ rw full (λ e. cc)
      | inr room ↦
          let few' : length out < max_pb_fields = ground arith in
          rw room (
            next_Sound fuel out (c ∷ b) n (read_field (c ∷ b)) (read_field-Shorter (c ∷ b)) enough
              few' small (pb_loop-Sound n fuel))
    ]

-- Whatever the input, the parser ends by itself: the rounds suffice. A list that it returns has 64
-- fields at most, and the data of all of them together is no longer than the input.
pub pb_parse-Sound : (b : Bytes) → Sound (length b) (pb_parse b)
unfolding pb_parse
pb_parse-Sound b =
    pb_loop-Sound (length b) (length b) [] b (omega arith) (omega arith) (omega arith)
