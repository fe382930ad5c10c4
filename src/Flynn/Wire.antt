-- ===== src/Flynn/Wire.antt =====
-- The frames of a run of messages: each a 2-byte length and a ciphertext, under one cipher state.
use noisecat.Base.{◌++◌, List, [], ◌∷◌, Bytes, length, be16}
use noisecat.Flynn.{NoiseLibrary, IsCipher}

abbrev pub prefixed : Bytes → Bytes
prefixed b = be16 (length b) ++ b

module _ (l : NoiseLibrary) (c : IsCipher l) where
  open c use {sealed, stepped}

  -- `payload` is what is sealed for a part.
  abbrev pub wire_of : (Bytes → Bytes) → l.CipherState → List Bytes → Bytes
  wire_of payload s [] = []
  wire_of payload s (p ∷ ps) = prefixed (sealed (payload p) s) ++ wire_of payload (stepped s) ps

  abbrev pub steps : l.CipherState → List Bytes → l.CipherState
  steps s [] = s
  steps s (p ∷ ps) = steps (stepped s) ps
