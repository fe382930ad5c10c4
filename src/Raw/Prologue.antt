-- ===== src/Raw/Prologue.antt =====
-- applyPrologue of pkg/transport/raw/raw.go and of pkg/transport/udp/udp.go, on the prologue that a
-- configuration has. Dial and Listen call it alike.
use noisecat.Base.{
  ◌≡◌, refl, ◌&&◌, Option, none, some, [], ◌∷◌, Bytes, length, ltb, ◌==◌, if◌then◌else◌, lt→ltb,
  arith, false,
}

unfoldable pub apply_prologue : Bytes → Bytes → Bytes
apply_prologue current prologue = if length current == 0 then prologue else current

-- raw's Dial and Listen, which apply an option that is not empty.
unfoldable pub raw_prologue : Bytes → Bytes → Bytes
raw_prologue current prologue =
    if ltb 0 (length prologue) then apply_prologue current prologue else current

-- udp's, with none for a nil configuration.
unfoldable pub udp_prologue : Option Bytes → Bytes → Option Bytes
udp_prologue none prologue = none
udp_prologue (some current) prologue =
    if ltb 0 (length prologue) && (length current == 0) then some prologue else some current

-- UDP sessions have the prologue that raw connections have.
pub udp_prologue-raw_prologue :
    (current prologue : Bytes)
    → udp_prologue (some current) prologue ≡ some (raw_prologue current prologue)
unfolding udp_prologue raw_prologue apply_prologue
udp_prologue-raw_prologue current [] = refl
udp_prologue-raw_prologue [] (b ∷ prologue) =
    let full = lt→ltb 0 (length (b ∷ prologue)) (omega arith) in simp full refl
udp_prologue-raw_prologue (a ∷ current) (b ∷ prologue) =
    let full = lt→ltb 0 (length (b ∷ prologue)) (omega arith) in
    let kept : (length (a ∷ current) == 0) ≡ false = ground arith in simp (full, kept) refl
