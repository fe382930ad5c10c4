-- ===== src/Noisecat/Names.antt =====
-- pkg/noisecat/protocols.go and utils.go: the names of the Noise protocols.
pub mod Match
pub mod Parts
pub mod Grammar
pub mod Missing
use noisecat.Base.{
  ℕ, ◌-◌, ◌++◌, Bool, true, ◌&&◌, ◌||◌, Option, none, some, List, [], ◌∷◌, Bytes, length, bytes_of,
  equal, ltb, leb, ◌==◌, if◌then◌else◌, text, detailed, Result,
}
use Prim.Native.String.{String}
use noisecat.Results.{◌>>=◌, or_err}

abbrev pub Table : Type 0
Table = List (Bytes × ℕ)

abbrev pub dh_curve25519 : ℕ
dh_curve25519 = 1

abbrev pub dh_secp256k1 : ℕ
dh_secp256k1 = 3

abbrev pub dh_str_byte : Table
dh_str_byte = (bytes_of "25519", dh_curve25519) ∷ (bytes_of "secp256k1", dh_secp256k1) ∷ []

abbrev pub hash_str_byte : Table
hash_str_byte =
    (bytes_of "BLAKE2s", 1)
    ∷ (bytes_of "BLAKE2b", 2)
    ∷ (bytes_of "SHA256", 3)
    ∷ (bytes_of "SHA512", 4)
    ∷ []

abbrev pub cipher_str_byte : Table
cipher_str_byte = (bytes_of "ChaChaPoly", 1) ∷ (bytes_of "AESGCM", 2) ∷ []

abbrev pub pattern_str_byte : Table
pattern_str_byte =
    (bytes_of "NN", 4)
    ∷ (bytes_of "NK", 5)
    ∷ (bytes_of "NX", 6)
    ∷ (bytes_of "XN", 7)
    ∷ (bytes_of "XK", 8)
    ∷ (bytes_of "XX", 9)
    ∷ (bytes_of "KN", 10)
    ∷ (bytes_of "KK", 11)
    ∷ (bytes_of "KX", 12)
    ∷ (bytes_of "IN", 13)
    ∷ (bytes_of "IK", 14)
    ∷ (bytes_of "IX", 15)
    ∷ []

-- A map's value, and its key's.
unfoldable pub lookup : Bytes → Table → Option ℕ
lookup k [] = none
lookup k ((j, v) ∷ t) = let rest = lookup k t in if equal j k then some v else rest

-- `[A-Z]`, `[0-3]` and `\w`
abbrev pub is_upper : ℕ → Bool
is_upper c = leb b'A' c && leb c b'Z'

abbrev pub is_psk_digit : ℕ → Bool
is_psk_digit c = leb b'0' c && leb c b'3'

unfoldable pub is_word : ℕ → Bool
is_word c = (leb b'0' c && leb c b'9') || is_upper c || (leb b'a' c && leb c b'z') || (c == b'_')

abbrev pub first_of {ℓ} : {A : Type ℓ} → Option A → Option A → Option A
first_of (some a) o = some a
first_of none o = o

abbrev pub paired {ℓ} : {A : Type ℓ} → Bytes → Option A → Option (Bytes × A)
paired g none = none
paired g (some a) = some (g, a)

-- `(\w+)_` and what follows: the group takes as much as it can, `k` matches the rest.
unfoldable pub word_group {ℓ} :
    {A : Type ℓ} → (Bytes → Option A) → Bytes → Bytes → Option (Bytes × A)
word_group k so_far [] = none
word_group k so_far (c ∷ cs) =
    let longer = word_group k (so_far ++ c ∷ []) cs in
    let stop = if c == b'_' && ltb 0 (length so_far) then paired so_far (k cs) else none in
    if is_word c then first_of longer stop else none

-- `(\w+)$`
abbrev pub all_words : Bytes → Bool
all_words [] = true
all_words (c ∷ cs) = is_word c && all_words cs

unfoldable pub last_group : Bytes → Option Bytes
last_group s = if ltb 0 (length s) && all_words s then some s else none

-- `_(\w+)_(\w+)_(\w+)$`
unfoldable pub function_groups : Bytes → Option (Bytes × (Bytes × Bytes))
function_groups [] = none
function_groups (c ∷ s) = if c == b'_' then word_group (word_group last_group []) [] s else none

-- `(?:psk([0-3]))?`: the placement and the rest.
unfoldable pub psk_group : Bytes → Option ℕ × Bytes
psk_group (p ∷ s ∷ k ∷ n ∷ rest) =
    if p == b'p' && s == b's' && k == b'k' && is_psk_digit n
    then (some (n - b'0'), rest)
    else (none, p ∷ s ∷ k ∷ n ∷ rest)
psk_group s = (none, s)

pub record Groups : Type 0 where
  pub pattern_name : Bytes
  pub psk : Option ℕ
  pub functions : Bytes × (Bytes × Bytes)

-- `([A-Z]{2})` and the rest.
unfoldable pub pattern_group : Bytes → Option Groups
pattern_group (a ∷ b ∷ s) =
    let r = psk_group s in
    if is_upper a && is_upper b
    then elim (function_groups r.1) [
      | none ↦ none
      | some f ↦ some (record { pattern_name = a ∷ b ∷ []; psk = r.0; functions = f })
    ]
    else none
pattern_group s = none

-- `^Noise_`
unfoldable pub strip : Bytes → Bytes → Option Bytes
strip [] s = some s
strip (p ∷ ps) [] = none
strip (p ∷ ps) (c ∷ s) = if p == c then strip ps s else none

abbrev pub noise_prefix : Bytes
noise_prefix = bytes_of "Noise_"

-- protocolRegexp.FindStringSubmatch
unfoldable pub match_name : Bytes → Option Groups
match_name s = elim (strip noise_prefix s) [ none ↦ none | some rest ↦ pattern_group rest ]

-- What a name stands for; `psk` is none for NoPSK.
pub record Protocol : Type 0 where
  pub pattern_ : ℕ
  pub dh_func : ℕ
  pub cipher_func : ℕ
  pub hash_func : ℕ
  pub psk_placement : Option ℕ

unfoldable pub lookups : Groups → Option Protocol
lookups g = elim (lookup g.pattern_name pattern_str_byte) [
  | none ↦ none
  | some hs ↦ elim (lookup g.functions.0 dh_str_byte) [
    | none ↦ none
    | some dh ↦ elim (lookup g.functions.1.0 cipher_str_byte) [
      | none ↦ none
      | some cipher ↦ elim (lookup g.functions.1.1 hash_str_byte) [
        | none ↦ none
        | some hash ↦ some (record {
          pattern_ = hs;
          dh_func = dh;
          cipher_func = cipher;
          hash_func = hash;
          psk_placement = g.psk;
        })
      ]
    ]
  ]
]

abbrev pub missing_as : Option ℕ → String → Bytes → List Bytes
missing_as none what name = (bytes_of what ++ name) ∷ []
missing_as (some v) what name = []

abbrev pub missing_in : Table → String → Bytes → List Bytes
missing_in t what name = missing_as (lookup name t) what name

-- The names that no table has, in the order of the name's parts.
unfoldable pub missing : Groups → List Bytes
missing g =
    missing_in pattern_str_byte "handshake pattern " g.pattern_name
    ++ (missing_in dh_str_byte "DH function " g.functions.0
        ++ (missing_in cipher_str_byte "cipher function " g.functions.1.0
            ++ missing_in hash_str_byte "hash function " g.functions.1.1))

unfoldable pub join_loop : Bytes → List Bytes → Bytes
join_loop out [] = out
join_loop out (s ∷ items) = join_loop (out ++ (bytes_of ", " ++ s)) items

-- joinList
unfoldable pub join_list : List Bytes → Bytes
unfolding join_loop
join_list [] = []
join_list (s ∷ items) = join_loop s items

-- parseProtocolName. What it returns along with an error is left out.
unfoldable pub parse_protocol_name : Bytes → Result Protocol
parse_protocol_name name = do
  g ← or_err (match_name name) (text "invalid protocol name (expected Noise_PT[pskN]_DH_CP_HS)")
  or_err (lookups g) (detailed "unsupported " (join_list (missing g)))
