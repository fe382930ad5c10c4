-- ===== src/Noisecat/Net.antt =====
-- pkg/noisecat/net.go: the transport of a configuration, and its options.
pub mod Resolve
pub mod Dial
pub mod Serve
pub mod Start
mod Tests
use noisecat.Base.{
  ◌*◌, ◌-◌, ◌^◌, Bool, not, ◌&&◌, Option, none, some, List, [], Bytes, String, bytes_of, says,
  is_blank, ◌==◌, if◌then◌else◌, ℤ, pos, negsuc, wrap64, text, Result, ok, err,
}
use noisecat.Noisecat.Names.{dh_curve25519, dh_secp256k1}
use noisecat.Noisecat.Config.{Config, split_list, negotiation_enabled}
use noisecat.Noisecat.Keys.{Env}
use noisecat.Noisecat.Noise.{NoiseConfig, build_noise_config_for_protocol}

pub data Transport : Type 0 where
  raw noisesocket bolt8 whatsapp udp : Transport

unfoldable pub refuse : Bool → Transport → String → Result Transport
refuse fits t why = if fits then ok t else err (text why)

unfoldable pub resolve_transport : Config → Result Transport
resolve_transport c =
    let secp = c.dh_func == dh_secp256k1 in
    let name = if is_blank c.transport then bytes_of "raw" else c.transport in
    if c.udp
    then refuse (not secp) udp "-u (UDP) cannot speak secp256k1"
    else if says name "raw"
    then refuse (not secp) raw "transport=raw cannot speak secp256k1; use -transport bolt8"
    else if says name "noisesocket"
    then refuse (not secp) noisesocket "transport=noisesocket cannot speak secp256k1"
    else if says name "bolt8"
    then refuse secp bolt8 "transport=bolt8 only supports secp256k1"
    else if says name "whatsapp"
    then refuse (c.dh_func == dh_curve25519) whatsapp "transport=whatsapp requires Curve25519"
    else err (text "unknown transport")

-- Negotiation and Options of pkg/transport/transport.go
pub record Negotiation : Type 0 where
  pub build_config : Bytes → Bool → Result NoiseConfig
  pub app_data : Bytes
  pub proposed : Bytes
  pub fallback : List Bytes
  pub supported : List Bytes
  pub policy : Bytes

pub record Options : Type 0 where
  pub prologue : Bytes
  pub negotiation_data : Bytes
  pub dial_timeout : ℤ
  pub negotiation : Option Negotiation

-- time.Duration(n) * time.Second
unfoldable pub seconds : ℤ → ℤ
seconds (pos n) = wrap64 (n * 1000000000)
seconds (negsuc n) = wrap64 ((2 ^ 64 - 1 - n) * 1000000000)

module _ (env : Env) where
  unfoldable pub negotiation_of : Config → Negotiation
  negotiation_of c =
      if c.listen
      then record {
        build_config = build_noise_config_for_protocol env c;
        app_data = [];
        proposed = [];
        fallback = [];
        supported = split_list c.ns_support;
        policy = c.ns_policy;
      }
      else record {
        build_config = build_noise_config_for_protocol env c;
        app_data = c.negotiation_data;
        proposed = c.protocol;
        fallback = split_list c.ns_fallback;
        supported = [];
        policy = [];
      }

  unfoldable pub transport_options : Config → Options
  transport_options c = record {
    prologue =
        if is_blank c.prologue && says c.transport "bolt8"
        then bytes_of "lightning"
        else c.prologue;
    negotiation_data = c.negotiation_data;
    dial_timeout = seconds c.timeout_seconds;
    negotiation =
        if says c.transport "noisesocket" && negotiation_enabled c
        then some (negotiation_of c)
        else none;
  }
