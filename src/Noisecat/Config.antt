-- ===== src/Noisecat/Config.antt =====
-- pkg/noisecat/conf.go: the configuration and the checks of its flags. Texts are their bytes, and
-- ASCII. NoPSK is none. Where ParseConfig fails, what it has set of the configuration is left out:
-- main ends there.
pub mod Lists
use noisecat.Base.{
  ℕ, zero, suc, ◌+◌, ◌-◌, ◌*◌, ◌++◌, ◌^◌, Bool, false, not, ◌&&◌, ◌||◌, Option, none, some, List,
  [], ◌∷◌, Bytes, bytes_of, says, is_blank, ltb, leb, ◌==◌, if◌then◌else◌, ℤ, pos, negsuc, text,
  Result, ok,
}
use noisecat.Results.{◌>>=◌, ◌>>◌, require}

pub record Config : Type 0 where
  pub src_port : Bytes
  pub src_host : Bytes
  pub dst_port : Bytes
  pub dst_host : Bytes
  pub execute_cmd : Bytes
  pub proxy : Bytes
  pub listen : Bool
  pub verbose : Bool
  pub daemon : Bool
  pub keygen : Bool
  pub protocol : Bytes
  pub pattern_ : ℕ
  pub dh_func : ℕ
  pub cipher_func : ℕ
  pub hash_func : ℕ
  pub psk_placement : Option ℕ
  pub psk : Bytes
  pub r_static : Bytes
  pub l_static : Bytes
  pub transport : Bytes
  pub prologue : Bytes
  pub negotiation_data : Bytes
  pub validate : Bytes
  pub ipv4_only : Bool
  pub ipv6_only : Bool
  pub timeout_seconds : ℤ
  pub udp : Bool
  pub ns_fallback : Bytes
  pub ns_support : Bytes
  pub ns_policy : Bytes

abbrev pub comma : ℕ
comma = b','

-- strings.Split(s, ",")
unfoldable pub split_commas : Bytes → Bytes → List Bytes
split_commas so_far [] = so_far ∷ []
split_commas so_far (c ∷ cs) =
    let same = split_commas (so_far ++ c ∷ []) cs in
    let next = split_commas [] cs in if c == comma then so_far ∷ next else same

-- White space: from '\t' to '\r', and ' '.
unfoldable pub is_space : ℕ → Bool
is_space c = (leb 9 c && leb c 13) || (c == 32)

unfoldable pub trim_left : Bytes → Bytes
trim_left [] = []
trim_left (c ∷ s) = let rest = trim_left s in if is_space c then rest else c ∷ s

unfoldable pub trim_right : Bytes → Bytes
trim_right [] = []
trim_right (c ∷ s) = let rest = trim_right s in if is_space c && is_blank rest then [] else c ∷ rest

-- strings.TrimSpace
unfoldable pub trim_space : Bytes → Bytes
trim_space s = trim_right (trim_left s)

unfoldable pub keep_parts : List Bytes → List Bytes
keep_parts [] = []
keep_parts (part ∷ parts) =
    let out = keep_parts parts in let p = trim_space part in if is_blank p then out else p ∷ out

-- splitList
unfoldable pub split_list : Bytes → List Bytes
split_list s = if is_blank s then [] else keep_parts (split_commas [] s)

unfoldable pub negotiation_enabled : Config → Bool
negotiation_enabled c =
    if c.listen then not (is_blank c.ns_support) else not (is_blank c.ns_fallback)

unfoldable pub net_label : Config → Bytes
net_label c = if c.udp then bytes_of "udp" else bytes_of "tcp"

unfoldable pub network : Config → Bytes
network c =
    if c.ipv4_only
    then bytes_of "tcp4"
    else (if c.ipv6_only then bytes_of "tcp6" else bytes_of "tcp")

-- strconv.Atoi
abbrev pub is_digit : ℕ → Bool
is_digit c = leb b'0' c && leb c b'9'

unfoldable pub digits : ℕ → Bytes → Option ℕ
digits so_far [] = some so_far
digits so_far (c ∷ cs) =
    let rest = digits (so_far * 10 + (c - b'0')) cs in if is_digit c then rest else none

abbrev pub number : Bytes → Option ℕ
number [] = none
number (c ∷ cs) = digits 0 (c ∷ cs)

abbrev pub minus : Option ℕ → Option ℤ
minus none = none
minus (some zero) = some (pos zero)
minus (some (suc n)) = some (negsuc n)

abbrev pub plus : Option ℕ → Option ℤ
plus none = none
plus (some n) = some (pos n)

abbrev pub in_int : Option ℤ → Option ℤ
in_int none = none
in_int (some (pos n)) = if ltb n (2 ^ 63) then some (pos n) else none
in_int (some (negsuc n)) = if ltb n (2 ^ 63) then some (negsuc n) else none

unfoldable pub atoi : Bytes → Option ℤ
atoi [] = none
atoi (c ∷ cs) =
    if c == b'-'
    then in_int (minus (number cs))
    else (if c == b'+' then in_int (plus (number cs)) else in_int (plus (number (c ∷ cs))))

-- `err != nil || p < 0 || p > 65535`, negated.
abbrev pub in_ports : Option ℤ → Bool
in_ports none = false
in_ports (some (pos n)) = leb n 65535
in_ports (some (negsuc n)) = false

unfoldable pub is_port : Bytes → Bool
is_port s = in_ports (atoi s)

unfoldable pub is_policy : Bytes → Bool
is_policy s = is_blank s || says s "reject" || says s "retry" || says s "switch"

unfoldable pub negotiation_flags : Config → Result (Unit {0})
negotiation_flags c = do
  require (says c.transport "noisesocket")
      (text "-ns-fallback/-ns-support/-ns-policy require -transport noisesocket")
  require (not c.listen || is_blank c.ns_fallback)
      (text "-ns-fallback is a client option; the listener uses -ns-support")
  require (c.listen || is_blank c.ns_support)
      (text "-ns-support is a listener option; the client uses -ns-fallback")
  require (c.listen || is_blank c.ns_policy) (text "-ns-policy is a listener option")
  require (is_policy c.ns_policy) (text "invalid -ns-policy: must be reject, retry, or switch")

-- validateNegotiation
unfoldable pub validate_negotiation : Config → Result (Unit {0})
validate_negotiation c =
    if is_blank c.ns_fallback && is_blank c.ns_support && is_blank c.ns_policy
    then ok tt
    else negotiation_flags c
