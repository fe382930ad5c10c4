-- ===== src/Noisecat/Net/Start/Transports.antt =====
-- The five transports of pkg/transport behind the interfaces, and StartClient and StartServer over them.
use noisecat.Base.{ℤ, none, some, Stream, Result}
use noisecat.Sockets.{Settled}
use noisecat.Raw.Dial as RawDial
use noisecat.Raw.Dial.Settles as RawSettles
use noisecat.Noisesocket.Dial as SocketDial
use noisecat.Bolt8.Dial as Bolt8Dial
use noisecat.Whatsapp.Dial as WhatsappDial
use noisecat.Udp
use noisecat.Raw.Conn as RawConn
use noisecat.Bolt8.Conn as Bolt8Conn
use noisecat.Whatsapp.Conn as WhatsappConn
use noisecat.Noisecat.Config.{Config}
use noisecat.Noisecat.Noise.{NoiseConfig}
use noisecat.Noisecat.Net.{Transport, raw, noisesocket, bolt8, whatsapp, udp}
use noisecat.Noisecat.Net.Dial.{local_priv_from_cfg, keypair_from_config}
use noisecat.Noisecat.Net.Start.Libraries.{Libraries, mapped, options_as, bolt8_keys, as_keypair}
use noisecat.Noisecat.Net.Start.{
  Dials, Listens, conn_of, accepted_conn, start_client, start_client-Settled, start_server_once,
  start_server_once-Settled,
}

module _ (x : Libraries) where
  open x use {
    env, net, host_of, join_host_port, noise, configured, no_config, base64, quoted, expired,
    secp256k1, private_key, curve, rand, generated, websocket, verify, kcp, kcp_listen,
  }

  -- What resolveTransport's choice stands for.
  unfoldable pub transports : Transport → Dials
  unfolding options_as bolt8_keys as_keypair
  transports raw = record {
    Conn = RawConn.Conn noise;
    conn = RawSettles.conn_of noise net;
    dial = λ network addr local nc o.
        RawDial.transport_dial noise net expired o.dial_timeout o.prologue network addr local
          (some (configured nc));
    dial-Settled = λ network addr local nc o.
        RawSettles.transport_dial-Settled noise net expired o.dial_timeout o.prologue network addr
          local (some (configured nc));
  }
  transports noisesocket = record {
    Conn = SocketDial.Connection noise base64 quoted net no_config;
    conn = SocketDial.conn_of noise base64 quoted net no_config;
    dial = λ network addr local nc o.
        SocketDial.transport_dial noise base64 quoted net no_config network addr local
          (some (configured nc)) (options_as x o);
    dial-Settled = λ network addr local nc o.
        SocketDial.transport_dial-Settled noise base64 quoted net no_config network addr local
          (some (configured nc)) (options_as x o);
  }
  transports bolt8 = record {
    Conn = Bolt8Conn.Conn secp256k1;
    conn = Bolt8Dial.conn_of secp256k1 net;
    dial = λ network addr local nc o.
        Bolt8Dial.transport_dial secp256k1 net o.dial_timeout network addr local (bolt8_keys x nc);
    dial-Settled = λ network addr local nc o.
        Bolt8Dial.transport_dial-Settled secp256k1 net o.dial_timeout network addr local
          (bolt8_keys x nc);
  }
  transports whatsapp = record {
    Conn = WhatsappConn.Conn curve;
    conn = WhatsappDial.conn_of curve net rand;
    dial = λ network addr local nc o.
        WhatsappDial.transport_dial curve net rand websocket verify o.dial_timeout (host_of addr)
          network addr local (mapped x (as_keypair x) (keypair_from_config generated nc));
    dial-Settled = λ network addr local nc o.
        WhatsappDial.transport_dial-Settled curve net rand websocket verify o.dial_timeout
          (host_of addr) network addr local
          (mapped x (as_keypair x) (keypair_from_config generated nc));
  }
  transports udp = record {
    Conn = RawConn.Conn noise;
    conn = Udp.conn_of noise;
    dial = λ network addr local nc o.
        Udp.transport_dial noise (kcp addr) o.prologue o.dial_timeout (configured nc);
    dial-Settled = λ network addr local nc o.
        Udp.transport_dial-Settled noise (kcp addr) o.prologue o.dial_timeout (configured nc);
  }

  -- The listening side of the same transports.
  unfoldable pub listens : Transport → Listens
  unfolding options_as as_keypair
  listens raw = record {
    Listener = RawDial.Listener noise net;
    Conn = RawConn.Conn noise;
    conn = RawSettles.conn_of noise net;
    listen = λ network laddr nc o.
        RawDial.transport_listen noise net o.prologue network laddr (some (configured nc));
    accept = λ accepted ln. RawDial.accept noise net accepted ln;
    accept-Settled = λ accepted ln. RawSettles.accept-Settled noise net accepted ln;
  }
  listens noisesocket = record {
    Listener = SocketDial.Listener noise base64 quoted net no_config;
    Conn = SocketDial.Connection noise base64 quoted net no_config;
    conn = SocketDial.conn_of noise base64 quoted net no_config;
    listen = λ network laddr nc o.
        SocketDial.transport_listen noise base64 quoted net no_config network laddr
          (some (configured nc)) (options_as x o);
    accept = λ accepted ln. SocketDial.accept noise base64 quoted net no_config accepted ln;
    accept-Settled =
        λ accepted ln. SocketDial.accept-Settled noise base64 quoted net no_config accepted ln;
  }
  listens bolt8 = record {
    Listener = Bolt8Dial.Listener secp256k1 net;
    Conn = Bolt8Conn.Conn secp256k1;
    conn = Bolt8Dial.conn_of secp256k1 net;
    listen = λ network laddr nc o.
        Bolt8Dial.transport_listen secp256k1 net network laddr
          (mapped x private_key (local_priv_from_cfg nc));
    accept = λ accepted ln. Bolt8Dial.accept secp256k1 net accepted ln;
    accept-Settled = λ accepted ln. Bolt8Dial.accept-Settled secp256k1 net accepted ln;
  }
  listens whatsapp = record {
    Listener = WhatsappDial.Listener curve net rand;
    Conn = WhatsappConn.Conn curve × ℤ;
    conn = WhatsappDial.accepted_conn curve net rand;
    listen = λ network laddr nc o.
        WhatsappDial.transport_listen curve net rand network laddr
          (mapped x (as_keypair x) (keypair_from_config generated nc)) o.dial_timeout;
    accept = λ accepted ln. WhatsappDial.accept curve net rand accepted ln;
    accept-Settled = λ accepted ln. WhatsappDial.accept-Settled curve net rand accepted ln;
  }
  listens udp = record {
    Listener = net.Listener × noise.Config;
    Conn = RawConn.Conn noise;
    conn = Udp.conn_of noise;
    listen = λ network laddr nc o.
        Udp.transport_listen noise (kcp_listen laddr) o.prologue (configured nc);
    accept = λ accepted ln. Udp.accept noise accepted ln;
    accept-Settled = λ accepted ln. Udp.accept-Settled noise accepted ln;
  }

  -- Whatever the configuration, the transport that it resolves to, the way its dialing goes and what the
  -- first Accept underneath returns: StartClient, and StartServer without -k, either have a connection
  -- over the one socket that was opened, with no deadline left on it, or end with an error where no
  -- socket was opened or the one that was is closed again. The listening socket, which StartServer
  -- closes as it returns, is not counted.
  pub start_settles :
      (accepted : Result Stream) (c : Config) (nc : NoiseConfig)
      → Settled (conn_of transports) (start_client env transports join_host_port c nc none)
        × Settled
            (accepted_conn env listens join_host_port accepted)
            (start_server_once env listens join_host_port accepted c nc none)
  start_settles accepted c nc = (
    start_client-Settled env transports join_host_port c nc,
    start_server_once-Settled env listens join_host_port accepted c nc,
  )
