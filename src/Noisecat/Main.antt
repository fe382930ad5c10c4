-- ===== src/Noisecat/Main.antt =====
-- cmd/noisecat/main.go around flag.Parse: the flags' defaults, the positional arguments, and what the
-- program does. An error ends the program with a message.
pub mod Roles
use noisecat.Base.{
  Bool, true, false, not, ◌||◌, Option, none, pos, List, [], ◌∷◌, Bytes, bytes_of, says, ◌==◌,
  if◌then◌else◌, text, wrapped, Result, ok, err,
}
use noisecat.Results.{◌>>=◌, ◌>>◌, require}
use noisecat.Noisecat.Names.{dh_secp256k1}
use noisecat.Noisecat.Config.{Config}
use noisecat.Noisecat.Keys.{
  Env, generate_key_file, generate_secp256k1_keypair, validate_static_key_for_protocol,
}
use noisecat.Noisecat.Noise.{NoiseConfig}
use noisecat.Noisecat.Parse.{is_set, parse_config}

-- The flags' defaults, which flag.Parse overwrites.
abbrev pub default_flags : Config
default_flags = record {
  src_port = bytes_of "0";
  src_host = [];
  dst_port = [];
  dst_host = [];
  execute_cmd = [];
  proxy = [];
  listen = false;
  verbose = false;
  daemon = false;
  keygen = false;
  protocol = bytes_of "Noise_NN_25519_AESGCM_SHA256";
  pattern_ = 0;
  dh_func = 0;
  cipher_func = 0;
  hash_func = 0;
  psk_placement = none;
  psk = [];
  r_static = [];
  l_static = [];
  transport = bytes_of "raw";
  prologue = [];
  negotiation_data = [];
  validate = [];
  ipv4_only = false;
  ipv6_only = false;
  timeout_seconds = pos 0;
  udp = false;
  ns_fallback = [];
  ns_support = [];
  ns_policy = [];
}

unfoldable pub destination : Config → List Bytes → Result Config
destination c (host ∷ port ∷ []) = ok (record c { dst_host = host; dst_port = port })
destination c [] = if says c.transport "whatsapp" then ok c else err (text "usage")
destination c args =
    if says c.transport "whatsapp"
    then err (text "-transport whatsapp takes either no address (real backend) or host+port")
    else err (text "usage")

abbrev pub no_arguments : List Bytes → Bool
no_arguments [] = true
no_arguments (a ∷ args) = false

-- The rest of parseFlags.
unfoldable pub positional : Config → List Bytes → Result Config
positional c args =
    if c.keygen || is_set c.validate
    then ok c
    else (if not c.listen
        then destination c args
        else require (no_arguments args) (text "positional arguments are not used with -l") >> ok c)

pub data Done : Type 0 where
  key_is_valid : Done
  prints : Bytes → Done
  starts_client starts_server : Option NoiseConfig → Config → Done

module _ (env : Env) where
  unfoldable pub print_keypair : Config → Result Done
  print_keypair c = do
    keypair ←
        if c.dh_func == dh_secp256k1
        then generate_secp256k1_keypair env
        else generate_key_file env c.dh_func c.cipher_func c.hash_func
    ok (prints keypair)

  unfoldable pub start : Option NoiseConfig → Config → Result Done
  start nc c =
      if c.keygen
      then print_keypair c
      else (if not c.listen then ok (starts_client nc c) else ok (starts_server nc c))

  unfoldable pub run_validate : Config → Result Done
  run_validate c = do
    wrapped "invalid key" (validate_static_key_for_protocol env c.validate c.protocol)
    ok key_is_valid

  unfoldable pub run_config : Config → Result Done
  run_config c = do (nc, c') ← parse_config env c; start nc c'

  unfoldable pub main : Config → List Bytes → Result Done
  main c0 args = do
    c ← positional c0 args
    if is_set c.validate then run_validate c else run_config c
