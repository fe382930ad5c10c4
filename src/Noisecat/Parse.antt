-- ===== src/Noisecat/Parse.antt =====
-- ParseConfig of pkg/noisecat/conf.go.
pub mod Flags
pub mod Accepted
use noisecat.Base.{
  Bool, not, ◌&&◌, ◌||◌, Option, none, some, Bytes, bytes_of, says, is_blank, if◌then◌else◌,
  is_negative, text, wrapped, Result, ok,
}
use noisecat.Results.{◌>>=◌, ◌>>◌, require}
use noisecat.Noisecat.Names.{parse_protocol_name}
use noisecat.Noisecat.Config.{Config, is_port, validate_negotiation}
use noisecat.Noisecat.Keys.{Env}
use noisecat.Noisecat.Noise.{NoiseConfig, set_protocol, is_raw_name, parse_noise}

-- WhatsApp's protocol, and the flag's default.
abbrev pub whatsapp_protocol : Bytes
whatsapp_protocol = bytes_of "Noise_XX_25519_AESGCM_SHA256"

abbrev pub default_protocol : Bytes
default_protocol = bytes_of "Noise_NN_25519_AESGCM_SHA256"

unfoldable pub is_whatsapp_protocol : Bytes → Bool
is_whatsapp_protocol s =
    is_blank s || says s "Noise_NN_25519_AESGCM_SHA256" || says s "Noise_XX_25519_AESGCM_SHA256"

abbrev pub is_set : Bytes → Bool
is_set s = not (is_blank s)

module _ (env : Env) where
  open env use {split_host_port}

  unfoldable pub check_proxy : Bytes → Result (Unit {0})
  check_proxy proxy =
      if is_blank proxy
      then ok tt
      else wrapped "-proxy must be host:port" (split_host_port proxy) >>= λ hp. ok tt

  -- The checks of the flags, up to validateNegotiation.
  unfoldable pub check_flags : Config → Result (Unit {0})
  check_flags c = do
    require (not c.daemon || c.listen) (text "-k requires -l")
    require (not c.daemon || is_set c.proxy || is_set c.execute_cmd)
        (text "-k requires -proxy or -e")
    require (is_blank c.proxy || c.listen) (text "client mode does not support -proxy")
    require (is_blank c.proxy || is_blank c.execute_cmd)
        (text "-proxy and -e are mutually exclusive")
    check_proxy c.proxy
    require (is_blank c.src_port || is_port c.src_port) (text "invalid -p source port")
    require (not (c.ipv4_only && c.ipv6_only)) (text "-4 and -6 are mutually exclusive")
    require (not (is_negative c.timeout_seconds)) (text "invalid -w timeout: must be >= 0")
    require (not c.udp || is_raw_name c.transport)
        (text "-u (UDP) is only supported with the raw transport")
    validate_negotiation c

  -- The protocol of WhatsApp, the only one it speaks.
  unfoldable pub select_whatsapp : Config → Result Config
  select_whatsapp c =
      if says c.transport "whatsapp"
      then (do
        require (is_whatsapp_protocol c.protocol)
            (text "-transport whatsapp only supports Noise_XX_25519_AESGCM_SHA256")
        ok (record c { protocol = whatsapp_protocol }))
      else ok c

  -- -keygen reads the protocol only and makes no noise.Config.
  unfoldable pub parse_keygen : Config → Result (Option NoiseConfig × Config)
  parse_keygen c = do p ← parse_protocol_name c.protocol; ok (none, set_protocol p c)

  unfoldable pub parse_connection : Config → Result (Option NoiseConfig × Config)
  parse_connection c = do
    check_flags c
    c' ← select_whatsapp c
    (nc, c'') ← parse_noise env c'
    ok (some nc, c'')

  unfoldable pub parse_config : Config → Result (Option NoiseConfig × Config)
  parse_config c = if c.keygen then parse_keygen c else parse_connection c
