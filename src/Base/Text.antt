-- ===== src/Base/Text.antt =====
-- Text as bytes.
use mathlib.Core.Path.{◌≡◌, refl}
use mathlib.Core.Logic.{◌≢◌}
use mathlib.Core.Bool.{Bool, true, false}
use Prim.Native.Char.{code}
use Prim.Native.String.{String}
use mathlib.Core.List.{[], ◌∷◌}
use noisecat.Base.Lists.{Bytes, equal}

-- The bytes of an ASCII text.
abbrev pub bytes_of : String → Bytes
bytes_of String.[] = []
bytes_of (String.◌∷◌ c s) = code c ∷ bytes_of s

-- `s == "..."`
abbrev pub says : Bytes → String → Bool
says s t = equal s (bytes_of t)

abbrev pub is_blank : Bytes → Bool
is_blank [] = true
is_blank (c ∷ s) = false

pub is_blank-true : (s : Bytes) → is_blank s ≡ true → s ≡ []
is_blank-true [] h = refl
is_blank-true (c ∷ s) h = cc

pub is_blank-false : (s : Bytes) → is_blank s ≡ false → s ≢ []
is_blank-false [] h = λ e. cc
is_blank-false (c ∷ s) h = λ e. cc

pub nonempty-is_blank : (s : Bytes) → s ≢ [] → is_blank s ≡ false
nonempty-is_blank [] h = absurd (h refl)
nonempty-is_blank (c ∷ s) h = refl
