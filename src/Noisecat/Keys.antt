-- ===== src/Noisecat/Keys.antt =====
-- pkg/noisecat/validate.go, secp256k1_keys.go and the key files of conf.go. Base64, JSON, the file
-- system, the random source and the curves are parameters. What is only printed is left out.
pub mod Validate
use noisecat.Base.{
  ℕ, Bool, not, ◌&&◌, [], Bytes, is_blank, length, ◌==◌, if◌then◌else◌, text, wrapped, Result, ok,
  err,
}
use noisecat.Results.{◌>>=◌, ◌>>◌, require}
use noisecat.Noisecat.Names.{dh_curve25519, dh_secp256k1, parse_protocol_name}

-- noise.DHKey, and secp256k1KeyFile
pub record DhKey : Type 0 where
  pub private : Bytes
  pub public : Bytes

abbrev pub no_key : DhKey
no_key = record { private = []; public = [] }

-- What the program asks of its libraries and of the system, as it is at the time of a call.
pub record Env : Type 0 where
  pub decode_string : Bytes → Result Bytes
  pub split_host_port : Bytes → Result (Bytes × Bytes)
  pub is_windows : Bool
  pub stat : Bytes → Result (Unit {0})
  pub read_file : Bytes → Result Bytes
  pub unmarshal : Bytes → Result DhKey
  pub generate_keypair : ℕ → ℕ → ℕ → Result DhKey
  pub generate_private_key : Result Bytes
  pub serialize_compressed : Bytes → Bytes
  pub parse_pub_key : Bytes → Result (Unit {0})
  pub marshal : DhKey → Result Bytes

module _ (env : Env) where
  open env use {
    decode_string, is_windows, stat, read_file, unmarshal, generate_keypair, generate_private_key,
    serialize_compressed, parse_pub_key, marshal,
  }

  unfoldable pub warn_if_world_readable : Bytes → Result (Unit {0})
  warn_if_world_readable path =
      if is_windows then ok tt else wrapped "can't stat keyfile" (stat path)

  unfoldable pub read_keypair : Bytes → Result DhKey
  read_keypair path = do
    warn_if_world_readable path
    contents ← wrapped "can't read keyfile" (read_file path)
    wrapped "can't parse keyfile" (unmarshal contents)

  -- checkLocalKeypair with LStatic and the functions of the suite.
  unfoldable pub check_local_keypair : Bytes → ℕ → ℕ → ℕ → Result DhKey
  check_local_keypair path dh cipher hash =
      if is_blank path then generate_keypair dh cipher hash else do
        keypair ← read_keypair path
        require (length keypair.public == 32 && length keypair.private == 32)
            (text "keyfile: expected 32-byte public and private keys")
        ok keypair

  unfoldable pub new_secp256k1_keypair : Result DhKey
  new_secp256k1_keypair = do
    priv ← generate_private_key
    ok (record { private = priv; public = serialize_compressed priv })

  unfoldable pub load_secp256k1_keypair : Bytes → Result DhKey
  load_secp256k1_keypair path =
      if is_blank path then wrapped "generate secp256k1 keypair" new_secp256k1_keypair else do
        kf ← read_keypair path
        require (length kf.private == 32) (text "keyfile: secp256k1 private key must be 32 bytes")
        require (length kf.public == 33)
            (text "keyfile: secp256k1 public key must be 33 bytes compressed")
        ok kf

  -- What -keygen prints.
  unfoldable pub generate_key_file : ℕ → ℕ → ℕ → Result Bytes
  generate_key_file dh cipher hash = do keypair ← generate_keypair dh cipher hash; marshal keypair

  unfoldable pub generate_secp256k1_keypair : Result Bytes
  generate_secp256k1_keypair = do keypair ← new_secp256k1_keypair; marshal keypair

  -- The cases of the switch.
  unfoldable pub validate_raw : Bytes → ℕ → Result (Unit {0})
  validate_raw raw dh_func =
      if dh_func == dh_curve25519
      then require (length raw == 32) (text "curve25519 public key must be 32 bytes")
      else (if dh_func == dh_secp256k1
          then (do
            require (length raw == 33) (text "secp256k1 compressed public key must be 33 bytes")
            wrapped "not a valid secp256k1 point" (parse_pub_key raw))
          else err (text "unsupported DH function"))

  unfoldable pub validate_static_key : Bytes → ℕ → Result (Unit {0})
  validate_static_key b64 dh_func = do
    require (not (is_blank b64)) (text "empty key")
    raw ← wrapped "not valid base64" (decode_string b64)
    validate_raw raw dh_func

  unfoldable pub validate_static_key_for_protocol : Bytes → Bytes → Result (Unit {0})
  validate_static_key_for_protocol b64 name = do
    p ← wrapped "can't determine DH function from protocol" (parse_protocol_name name)
    validate_static_key b64 p.dh_func
