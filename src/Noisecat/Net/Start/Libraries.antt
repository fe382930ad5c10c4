-- ===== src/Noisecat/Net/Start/Libraries.antt =====
-- The libraries that the transports stand on, and what a transport takes of a configuration and of its
-- options.
use noisecat.Base.{
  Bool, none, some, Bytes, Stream, Result, ok, err, text, says, is_blank, if◌then◌else◌,
}
use noisecat.Results.{◌>>=◌, or_err}
use noisecat.Flynn.{NoiseLibrary}
use noisecat.Sockets.{Net}
use noisecat.Bolt8.Primitives as Bolt8Primitives
use noisecat.Whatsapp.Noise as WhatsappNoise
use noisecat.Whatsapp.Noise.{DhKeypair}
use noisecat.Noisesocket.Neg.{Base64}
use noisecat.Noisesocket.Conn.Negotiate as SocketNegotiate
use noisecat.Noisesocket.Conn.Negotiate.{
  Policy, policy_reject, policy_retry, policy_switch, unset, unknown,
}
use noisecat.Noisesocket.Dial as SocketDial
use noisecat.Noisecat.Keys.{Env, DhKey}
use noisecat.Noisecat.Noise.{NoiseConfig}
use noisecat.Noisecat.Net.{Negotiation, Options}
use noisecat.Noisecat.Net.Dial.{dial_keys}

pub record Libraries : Type 1 where
  pub env : Env
  pub net : Net
  -- net.JoinHostPort, and the host of net.SplitHostPort, empty where it fails
  pub join_host_port : Bytes → Bytes → Bytes
  pub host_of : Bytes → Bytes
  pub noise : NoiseLibrary
  -- A noise.Config as the library reads it, and a nil one.
  pub configured : NoiseConfig → noise.Config
  pub no_config : noise.Config
  pub base64 : Base64
  pub quoted : Bytes → Bytes
  -- Whether the time limit of DialWithDialer comes before the end of the handshake (Raw.Dial.Race).
  pub expired : Bool
  pub secp256k1 : Bolt8Primitives.Library
  pub private_key : Bytes → secp256k1.PrivateKey
  pub curve : WhatsappNoise.Library
  pub rand : Result Bytes
  pub generated : Result DhKey
  -- What websocket.Dial and kcp.DialWithOptions return, and the check of the server's certificate.
  pub websocket : Result Stream
  pub verify : Bytes → Bytes → Result (Unit {0})
  pub kcp : Bytes → Result Stream
  -- kcp.ListenWithOptions
  pub kcp_listen : Bytes → Result net.Listener

-- transport.NegotiationPolicy
unfoldable pub policy_of : Bytes → Policy
policy_of p =
    if says p "reject"
    then policy_reject
    else if says p "retry"
    then policy_retry
    else if says p "switch"
    then policy_switch
    else if is_blank p
    then unset
    else unknown

module _ (x : Libraries) where
  open x use {env, net, noise, configured, no_config, base64, quoted, secp256k1, private_key}

  abbrev pub mapped : {A B : Type 0} → (A → B) → Result A → Result B
  mapped f (ok a) = ok (f a)
  mapped f (err e) = err e

  abbrev pub Neg : Type 0
  Neg = SocketNegotiate.Negotiation noise base64 quoted

  unfoldable pub negotiation_as : Negotiation → Neg
  negotiation_as n = record {
    build_config = λ proto initiator. mapped configured (n.build_config proto initiator);
    app_data = n.app_data;
    proposed = n.proposed;
    fallback = n.fallback;
    supported = n.supported;
    policy = policy_of n.policy;
  }

  unfoldable pub options_as : Options → SocketDial.Options noise base64 quoted net no_config
  unfolding negotiation_as
  options_as o = record {
    prologue = o.prologue;
    negotiation_data = o.negotiation_data;
    dial_timeout = o.dial_timeout;
    negotiation = elim o.negotiation [ none ↦ none | some n ↦ some (negotiation_as n) ];
  }

  unfoldable pub bolt8_keys : NoiseConfig → Result (secp256k1.PrivateKey × secp256k1.PublicKey)
  bolt8_keys nc = do
    (priv, remote) ← dial_keys env nc
    key ←
        or_err (secp256k1.parse_pub_key remote)
          (text "bolt8: invalid -rstatic; want 33-byte compressed secp256k1")
    ok (private_key priv, key)

  unfoldable pub as_keypair : DhKey → DhKeypair
  as_keypair k = record { priv = k.private; public = k.public }
