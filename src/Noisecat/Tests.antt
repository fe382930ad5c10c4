-- ===== src/Noisecat/Tests.antt =====
-- The theorems on pkg/noisecat at concrete inputs.
use noisecat.Base.{
  ◌≡◌, ◌≤◌, ◌↔◌, ◌*◌, inr, refl, true, false, none, some, [], ◌∷◌, Bytes, bytes_of, replicate, pos,
  ok, err, detailed, if◌then◌else◌, ◌==◌,
}
use noisecat.Noisecat.Names.{
  missing, join_list, join_loop, Protocol, parse_protocol_name, dh_secp256k1, dh_curve25519,
  match_name, strip, pattern_group, psk_group, function_groups, word_group, last_group, is_word,
  lookups, lookup,
}
use noisecat.Noisecat.Names.Grammar.{Names, parse_protocol_name-Names}
use noisecat.Noisecat.Config.{
  Config, split_list, split_commas, keep_parts, trim_space, trim_left, trim_right, is_space,
  is_port, atoi, digits, validate_negotiation,
}
use noisecat.Noisecat.Keys.{
  load_secp256k1_keypair, new_secp256k1_keypair, DhKey, Env, check_local_keypair,
  validate_static_key,
}
use noisecat.Noisecat.Keys.Validate.{validate_static_key-check_remote_static}
use noisecat.Noisecat.Noise.{
  select_bolt8, bolt8_remote, NoiseConfig, set_protocol, check_remote_static, load_psk,
  load_statics, local_static, remote_static, pattern_at, build_noise25519_config, parse_noise,
}
use noisecat.Noisecat.Noise.Material.{Generates}
use noisecat.Noisecat.Noise.Provisioned.{Provisioned, build_noise25519_config-Provisioned}
use noisecat.Noisecat.Parse.{
  check_flags, check_proxy, select_whatsapp, parse_config, parse_connection,
}
use noisecat.Noisecat.Parse.Accepted.{Accepted, check_flags-Accepted}
use noisecat.Noisecat.Net.{raw, bolt8, resolve_transport, seconds}
use noisecat.Noisecat.Net.Resolve.{parse_config-resolve_transport, WrapsTo, seconds_iff}
use noisecat.Noisecat.Net.Dial.{dial_keys, parse_noise-dial_keys}
use noisecat.Noisecat.Main.{
  Done, default_flags, starts_client, positional, destination, start, run_config, main,
}
use noisecat.Noisecat.Main.Roles.{Fits, main-Fits}

-- Libraries and a system of their own: base64 is the identity, every key is of zeros.
abbrev zeros : DhKey
zeros = record { private = replicate 32 0; public = replicate 32 0 }

abbrev pub toy_env : Env
toy_env = record {
  decode_string = λ b. ok b;
  split_host_port = λ b. ok (b, b);
  is_windows = false;
  stat = λ b. ok tt;
  read_file = λ b. ok b;
  unmarshal = λ b. ok zeros;
  generate_keypair = λ dh cipher hash. ok zeros;
  generate_private_key = ok (replicate 32 0);
  serialize_compressed = λ b. replicate 33 2;
  parse_pub_key = λ b. ok tt;
  marshal = λ k. ok k.private;
}

abbrev key32 : Bytes
key32 = replicate 32 7

-- -proto and -rstatic.
abbrev flags : Bytes → Bytes → Config
flags name key = record default_flags { protocol = name; r_static = key }

abbrev xk_name : Bytes
xk_name = bytes_of "Noise_XK_25519_AESGCM_SHA256"

abbrev xk : Protocol
xk = record { pattern_ = 8; dh_func = 1; cipher_func = 2; hash_func = 3; psk_placement = none }

abbrev pub xk_flags : Config
xk_flags = flags xk_name key32

abbrev pub xk_config : NoiseConfig
xk_config = record {
  cipher_suite = some (1, (2, 3));
  pattern_name = bytes_of "XK";
  initiator = true;
  preshared_key = [];
  preshared_key_placement = 0;
  static_keypair = zeros;
  peer_static = key32;
}

parse_protocol_name-Names_example : (parse_protocol_name xk_name ≡ ok xk) ↔ Names xk_name xk
parse_protocol_name-Names_example = parse_protocol_name-Names xk_name xk

toy_env-Generates : Generates toy_env
toy_env-Generates = λ cipher hash k h. (cc h, cc h)

unsupported :
    parse_protocol_name (bytes_of "Noise_ZZ_448_AESGCM_SHA256")
    ≡ err (detailed "unsupported " (bytes_of "handshake pattern ZZ, DH function 448"))
unfolding parse_protocol_name match_name strip pattern_group psk_group function_groups word_group
    last_group is_word lookups lookup missing join_list join_loop
unsupported = refl

parsed : parse_protocol_name xk_name ≡ ok xk
unfolding parse_protocol_name match_name strip pattern_group psk_group function_groups word_group
    last_group is_word lookups lookup
parsed = refl

built : build_noise25519_config toy_env xk_flags xk_name true ≡ ok xk_config
unfolding build_noise25519_config load_psk load_statics local_static remote_static
    check_local_keypair check_remote_static pattern_at
built = simp parsed refl

build_noise25519_config-Provisioned_example :
    (xk_config.initiator ≡ true) × Provisioned xk_name xk_config
build_noise25519_config-Provisioned_example =
    build_noise25519_config-Provisioned toy_env xk_flags xk_name true xk_config toy_env-Generates
      built

check_flags-Accepted_example : (check_flags toy_env xk_flags ≡ ok tt) ↔ Accepted toy_env xk_flags
check_flags-Accepted_example = check_flags-Accepted toy_env xk_flags

abbrev xk_parsed : Config
xk_parsed = set_protocol xk xk_flags

built_parsed : build_noise25519_config toy_env xk_parsed xk_name true ≡ ok xk_config
unfolding build_noise25519_config load_psk load_statics local_static remote_static
    check_local_keypair check_remote_static pattern_at
built_parsed = simp parsed refl

checked : check_flags toy_env xk_flags ≡ ok tt
unfolding check_flags check_proxy is_port atoi digits validate_negotiation
checked = refl

selected : select_whatsapp toy_env xk_flags ≡ ok xk_flags
unfolding select_whatsapp
selected = refl

made : parse_noise toy_env xk_flags ≡ ok (xk_config, xk_parsed)
unfolding parse_noise
made = simp (parsed, built_parsed) refl

xk_parse : parse_config toy_env xk_flags ≡ ok (some xk_config, xk_parsed)
unfolding parse_config parse_connection
xk_parse = simp (checked, selected, made) refl

parse_config-resolve_transport_example :
    resolve_transport xk_parsed ≡ ok (if xk_parsed.dh_func == dh_secp256k1 then bolt8 else raw)
parse_config-resolve_transport_example =
    parse_config-resolve_transport toy_env xk_flags xk_parsed xk_config (inr refl) refl xk_parse

-- BOLT-8.
abbrev key33 : Bytes
key33 = replicate 33 2

abbrev bolt8_name : Bytes
bolt8_name = bytes_of "Noise_XK_secp256k1_ChaChaPoly_SHA256"

abbrev bolt8_flags : Config
bolt8_flags = flags bolt8_name key33

abbrev xk_secp : Protocol
xk_secp = record { pattern_ = 8; dh_func = 3; cipher_func = 1; hash_func = 3; psk_placement = none }

bolt8_parsed : parse_protocol_name bolt8_name ≡ ok xk_secp
unfolding parse_protocol_name match_name strip pattern_group psk_group function_groups word_group
    last_group is_word lookups lookup
bolt8_parsed = refl

abbrev bolt8_config : NoiseConfig
bolt8_config = record {
  cipher_suite = none;
  pattern_name = [];
  initiator = true;
  preshared_key = [];
  preshared_key_placement = 0;
  static_keypair = record { private = replicate 32 0; public = key33 };
  peer_static = key33;
}

abbrev bolt8_left : Config
bolt8_left = select_bolt8 (set_protocol xk_secp bolt8_flags)

bolt8_made : parse_noise toy_env bolt8_flags ≡ ok (bolt8_config, bolt8_left)
unfolding parse_noise load_secp256k1_keypair new_secp256k1_keypair bolt8_remote
bolt8_made = simp bolt8_parsed refl

parse_noise-dial_keys_example : dial_keys toy_env bolt8_config ≡ ok (replicate 32 0, key33)
parse_noise-dial_keys_example =
    parse_noise-dial_keys toy_env bolt8_flags bolt8_left bolt8_config (λ b h. cc h) refl refl
      bolt8_made refl

abbrev xk_client : Done
xk_client = starts_client (some xk_config) (record xk_parsed { dst_host = []; dst_port = [] })

xk_run : main toy_env xk_flags ([] ∷ [] ∷ []) ≡ ok xk_client
unfolding main positional destination run_config start
xk_run = simp xk_parse refl

main-Fits_example : Fits xk_client
main-Fits_example = main-Fits toy_env xk_flags ([] ∷ [] ∷ []) xk_client xk_run

-- A list without items.
comma_only : split_list (bytes_of ",") ≡ []
unfolding split_list split_commas keep_parts trim_space trim_left trim_right is_space
comma_only = refl

validate_static_key-check_remote_static_example :
    (validate_static_key toy_env key32 dh_curve25519 ≡ ok tt)
    ↔ ((rs : Bytes) × (check_remote_static toy_env key32 ≡ ok rs))
validate_static_key-check_remote_static_example =
    validate_static_key-check_remote_static toy_env key32

seconds_iff_example :
    WrapsTo (30 * 1000000000) (seconds (pos 30))
    × ((seconds (pos 30) ≡ pos (30 * 1000000000)) ↔ (30 ≤ 9223372036))
seconds_iff_example = seconds_iff 30
