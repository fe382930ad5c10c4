-- ===== src/Whatsapp/Proto/Encoded.antt =====
-- A message of bytes fields, as appendBytesField of proto.go writes it, is read back by pbParse.
use noisecat.Base.{
  ℕ, zero, suc, ◌+◌, ◌*◌, ◌/◌, ◌%◌, ◌^◌, ◌<◌, ◌≤◌, ◌++◌, ◌≡◌, ◌≢◌, ◌∙◌, sym, ap, refl, arith, false,
  List, [], ◌∷◌, some, Bytes, length, leb, All, le→ltb, length-append, take-append, drop-append,
  append_assoc, append-nil, ok,
}
use noisecat.Whatsapp.Varint.{
  length-append_varint, append_varint, append_varint-append, uvarint, uvarint-append_varint,
  uvarint_takes,
}
use noisecat.Whatsapp.Proto.{PbField, append_bytes_field, read_field, read_value, pb_loop, pb_parse}

-- A field that fits: its number below 2 ^ 61, as `field << 3` keeps it, its length a uint64.
abbrev pub Fits : ℕ → Bytes → Type 0
Fits num val = (num < 2 ^ 61) × (length val < 2 ^ 64)

abbrev pub bytes_field : ℕ → Bytes → PbField
bytes_field num val = record { num = num; wire = 2; bytes = some val; val = 0 }

append_bytes_field-append :
    (b : Bytes) (num : ℕ) (val : Bytes)
    → append_bytes_field b num val ≡ b ++ append_bytes_field [] num val
unfolding append_bytes_field
append_bytes_field-append b num val =
    simp
      (
        append_varint-append b ((num * 8 + 2) % 2 ^ 64),
        append_varint-append (b ++ append_varint [] ((num * 8 + 2) % 2 ^ 64)) (length val),
        append_varint-append (append_varint [] ((num * 8 + 2) % 2 ^ 64)) (length val),
        append_assoc,
      )
      refl

read_field-append_bytes_field :
    (num : ℕ) (val rest : Bytes)
    → Fits num val
    → read_field (append_bytes_field [] num val ++ rest) ≡ ok (some (bytes_field num val), rest)
unfolding read_field append_bytes_field read_value
read_field-append_bytes_field num val rest (small, short) =
    let tag : (num * 8 + 2) % 2 ^ 64 ≡ num * 8 + 2 = omega arith in
    let number : (num * 8 + 2) / 8 ≡ num = omega arith in
    let kind : (num * 8 + 2) % 8 ≡ 2 = omega arith in
    simp
      (
        tag,
        append_varint-append (append_varint [] (num * 8 + 2)) (length val),
        append_assoc,
        uvarint-append_varint (num * 8 + 2) (append_varint [] (length val) ++ (val ++ rest))
            (omega arith),
        uvarint-append_varint (length val) (val ++ rest) short,
        number,
        kind,
        le→ltb (length (val ++ rest)) (length val) (omega (arith, length-append val rest)),
        take-append (length val) val rest refl,
        drop-append (length val) val rest refl,
      )
      refl

-- A message as its fields are written one behind the other.
abbrev pub encode : List (ℕ × Bytes) → Bytes
encode [] = []
encode ((num, val) ∷ fs) = append_bytes_field [] num val ++ encode fs

abbrev pub decoded : List (ℕ × Bytes) → List PbField
decoded [] = []
decoded ((num, val) ∷ fs) = bytes_field num val ∷ decoded fs

none_read : (f : PbField) (rest : Bytes) → read_field [] ≢ ok (some f, rest)
unfolding read_field uvarint
none_read f rest e = cc

pb_loop_step :
    (fuel : ℕ) (out : List PbField) (b rest : Bytes) (f : PbField)
    → length out < 64
    → read_field b ≡ ok (some f, rest)
    → pb_loop (suc fuel) out b ≡ pb_loop fuel (out ++ f ∷ []) rest
unfolding pb_loop
pb_loop_step fuel out [] rest f few h = absurd (none_read f rest h)
pb_loop_step fuel out (c ∷ b) rest f few h =
    let room : leb 64 (length out) ≡ false = ground arith in simp (room, h) refl

pb_loop-encode :
    (fs : List (ℕ × Bytes)) (fuel : ℕ) (out : List PbField)
    → All (λ f. Fits f.0 f.1) fs
    → length out + length fs ≤ 64
    → length fs ≤ fuel
    → pb_loop fuel out (encode fs) ≡ ok (out ++ decoded fs)
unfolding pb_loop
pb_loop-encode [] zero out fit few enough = simp append-nil refl
pb_loop-encode [] (suc fuel) out fit few enough = simp append-nil refl
pb_loop-encode (f ∷ fs) zero out fit few enough = absurd (omega arith)
pb_loop-encode ((num, val) ∷ fs) (suc fuel) out (fit, fits) few enough =
    let step =
      pb_loop_step fuel out (append_bytes_field [] num val ++ encode fs) (encode fs)
        (bytes_field num val) (omega arith)
        (read_field-append_bytes_field num val (encode fs) fit) in
    let rec =
      pb_loop-encode fs fuel (out ++ bytes_field num val ∷ []) fits
        (omega (arith, length-append out (bytes_field num val ∷ []))) (omega arith) in
    step ∙ rec ∙ simp append_assoc refl

field_bytes :
    (num : ℕ) (val rest : Bytes) → length rest < length (append_bytes_field [] num val ++ rest)
unfolding append_bytes_field
field_bytes num val rest =
    let tag = (num * 8 + 2) % 2 ^ 64 in
    let len = append_varint [] (length val) in
    rw (append_varint-append (append_varint [] tag) (length val)) (
      omega (
        arith,
        uvarint_takes (append_varint [] tag ++ (len ++ (val ++ rest))) tag (len ++ (val ++ rest))
            (uvarint-append_varint tag (len ++ (val ++ rest)) (omega arith)),
        length-append (append_varint [] tag) (len ++ (val ++ rest)),
        length-append len (val ++ rest),
        length-append val rest,
        length-append (append_varint [] tag) len,
        length-append (append_varint [] tag ++ len) val,
        length-append ((append_varint [] tag ++ len) ++ val) rest,
      ))

length-encode : (fs : List (ℕ × Bytes)) → length fs ≤ length (encode fs)
length-encode [] = omega arith
length-encode ((num, val) ∷ fs) = omega (arith, length-encode fs, field_bytes num val (encode fs))

-- A message of at most 64 fields is read back field by field.
pub pb_parse-encode :
    (fs : List (ℕ × Bytes))
    → All (λ f. Fits f.0 f.1) fs
    → length fs ≤ 64
    → pb_parse (encode fs) ≡ ok (decoded fs)
unfolding pb_parse
pb_parse-encode fs fits few =
    pb_loop-encode fs (length (encode fs)) [] fits (omega arith) (length-encode fs)

-- The bytes of the values alone.
abbrev pub sizes : List (ℕ × Bytes) → ℕ
sizes [] = 0
sizes ((num, val) ∷ fs) = length val + sizes fs

pub length-encode_le : (fs : List (ℕ × Bytes)) → length (encode fs) ≤ 20 * length fs + sizes fs
unfolding append_bytes_field
length-encode_le [] = omega arith
length-encode_le ((num, val) ∷ fs) =
    let tag = (num * 8 + 2) % 2 ^ 64 in
    let len = append_varint [] (length val) in
    rw (append_varint-append (append_varint [] tag) (length val)) (
      omega (
        arith,
        length-encode_le fs,
        length-append_varint tag,
        length-append_varint (length val),
        length-append (append_varint [] tag) len,
        length-append (append_varint [] tag ++ len) val,
        length-append ((append_varint [] tag ++ len) ++ val) (encode fs),
      ))

pub pb_parse-single :
    (num : ℕ) (val : Bytes)
    → Fits num val
    → pb_parse (append_bytes_field [] num val) ≡ ok (bytes_field num val ∷ [])
pb_parse-single num val fits =
    ap pb_parse (sym (append-nil (append_bytes_field [] num val)))
    ∙ pb_parse-encode ((num, val) ∷ []) (fits, tt) (omega arith)

pub two_fields :
    (m n : ℕ) (a b : Bytes)
    → append_bytes_field (append_bytes_field [] m a) n b ≡ encode ((m, a) ∷ (n, b) ∷ [])
two_fields m n a b =
    simp (append_bytes_field-append (append_bytes_field [] m a) n b, append-nil) refl

pub three_fields :
    (m n k : ℕ) (a b c : Bytes)
    → append_bytes_field (append_bytes_field (append_bytes_field [] m a) n b) k c
      ≡ encode ((m, a) ∷ (n, b) ∷ (k, c) ∷ [])
three_fields m n k a b c =
    simp
      (
        append_bytes_field-append (append_bytes_field [] m a) n b,
        append_bytes_field-append (append_bytes_field [] m a ++ append_bytes_field [] n b) k c,
        append-nil,
        append_assoc,
      )
      refl

-- A message inside a message.
pub pb_parse_nested :
    (num : ℕ) (fs : List (ℕ × Bytes))
    → num ≤ 4
    → length fs ≤ 3
    → sizes fs < 2 ^ 34
    → pb_parse (append_bytes_field [] num (encode fs)) ≡ ok (bytes_field num (encode fs) ∷ [])
pb_parse_nested num fs small few short =
    let fit : Fits num (encode fs) = (omega arith, omega (arith, length-encode_le fs)) in
    pb_parse-single num (encode fs) fit
