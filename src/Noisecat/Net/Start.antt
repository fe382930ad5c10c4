-- ===== src/Noisecat/Net/Start.antt =====
-- StartClient, StartServer without -k and newParams of pkg/noisecat/net.go over the transports' Dial,
-- Listen and Accept, and the interface Transport of pkg/transport/transport.go. A configuration is never nil here (Main.Roles).
pub mod Libraries
pub mod Transports
use noisecat.Base.{none, some, Bytes, Stream, ℤ, Outcome, Result, ok, err, ret, raise, Action}
use noisecat.Sockets.{World, Settled}
use noisecat.Noisecat.Config.{Config, network}
use noisecat.Noisecat.Keys.{Env}
use noisecat.Noisecat.Noise.{NoiseConfig}
use noisecat.Noisecat.Net.{Transport, Options, seconds, resolve_transport, transport_options}

-- Transport of transport.go, its Dial: network, address and local address, and what it promises.
pub record Dials : Type 1 where
  pub Conn : Type 0
  pub conn : Conn → Stream
  pub dial : Bytes → Bytes → Bytes → NoiseConfig → Options → Action World Conn
  pub dial-Settled :
      (net addr local : Bytes) (nc : NoiseConfig) (o : Options)
      → Settled conn (dial net addr local nc o none)

-- Its Listen and Accept, the latter on what the listener underneath returns.
pub record Listens : Type 1 where
  pub Listener : Type 0
  pub Conn : Type 0
  pub conn : Conn → Stream
  pub listen : Bytes → Bytes → NoiseConfig → Options → Result Listener
  pub accept : Result Stream → Listener → Action World Conn
  pub accept-Settled :
      (accepted : Result Stream) (ln : Listener) → Settled conn (accept accepted ln none)

-- A transport and its connection.
abbrev pub Connection : (Transport → Dials) → Type 0
Connection transports = (t : Transport) × (transports t).Conn

abbrev pub conn_of : (transports : Transport → Dials) → Connection transports → Stream
conn_of transports c = (transports c.0).conn c.1

-- The Params of newParams: what its Router is told, and the idle time of newIdleConn.
pub record Params : Type 0 where
  pub proxy : Bytes
  pub execute_cmd : Bytes
  pub idle : ℤ

unfoldable pub new_params : Config → Params
new_params c = record {
  proxy = c.proxy;
  execute_cmd = c.execute_cmd;
  idle = seconds c.timeout_seconds;
}

-- The outcome of a transport's call, with the transport.
tagged :
    (C : Transport → Type 0) (t : Transport)
    → Outcome World (C t)
    → Outcome World ((t : Transport) × C t)
tagged C t (ret c w) = ret (t, c) w
tagged C t (raise e w) = raise e w

tagged-Settled :
    {C : Transport → Type 0} (conn : (t : Transport) → C t → Stream) (t : Transport)
    (o : Outcome World (C t))
    → Settled (conn t) o
    → Settled (λ (c : (t : Transport) × C t). conn c.0 c.1) (tagged C t o)
unfolding tagged
tagged-Settled conn t (ret c w) h = h
tagged-Settled conn t (raise e none) h = tt
tagged-Settled conn t (raise e (some k)) h = h

module _ (env : Env) (transports : Transport → Dials) (join_host_port : Bytes → Bytes → Bytes) where
  -- `tp.Dial(...)`
  unfoldable pub dial_with : Config → NoiseConfig → Transport → Action World (Connection transports)
  unfolding tagged
  dial_with c nc t w =
      tagged (λ t. (transports t).Conn) t
        ((transports t).dial (network c) (join_host_port c.dst_host c.dst_port)
          (join_host_port c.src_host c.src_port) nc (transport_options env c) w)

  resolved : Config → NoiseConfig → Result Transport → Action World (Connection transports)
  resolved c nc (err e) w = raise e w
  resolved c nc (ok t) w = dial_with c nc t w

  -- StartClient up to its Router, which is `router` on new_params. An error ends the program.
  unfoldable pub start_client : Config → NoiseConfig → Action World (Connection transports)
  unfolding resolved
  start_client c nc = resolved c nc (resolve_transport c)

  pub start_client-Settled :
      (c : Config) (nc : NoiseConfig) → Settled (conn_of transports) (start_client c nc none)
  unfolding start_client tagged dial_with
  start_client-Settled c nc = on_transport (resolve_transport c)
    where
      on_transport : (r : Result Transport) → Settled (conn_of transports) (resolved c nc r none)
      on_transport (err e) = tt
      on_transport (ok t) =
          tagged-Settled (λ t. (transports t).conn) t _
            ((transports t).dial-Settled (network c) _ _ nc (transport_options env c))

module _ (env : Env) (transports : Transport → Listens) (join_host_port : Bytes → Bytes → Bytes)
    (accepted : Result Stream) where
  abbrev pub Accepted : Type 0
  Accepted = (t : Transport) × (transports t).Conn

  abbrev pub accepted_conn : Accepted → Stream
  accepted_conn c = (transports c.0).conn c.1

  accepting : (t : Transport) → Result (transports t).Listener → Action World Accepted
  unfolding tagged
  accepting t (err e) w = raise e w
  accepting t (ok ln) w = tagged (λ t. (transports t).Conn) t ((transports t).accept accepted ln w)

  -- `tp.Listen(...)` and the first Accept
  unfoldable pub listen_with : Config → NoiseConfig → Result Transport → Action World Accepted
  unfolding accepting
  listen_with c nc (err e) w = raise e w
  listen_with c nc (ok t) w =
      accepting t
        ((transports t).listen (network c) (join_host_port c.src_host c.src_port) nc
          (transport_options env c))
        w

  -- StartServer without -k, up to its Router; `accepted` is what the first Accept underneath returns.
  unfoldable pub start_server_once : Config → NoiseConfig → Action World Accepted
  start_server_once c nc = listen_with c nc (resolve_transport c)

  accepting-Settled :
      (t : Transport) (r : Result (transports t).Listener)
      → Settled accepted_conn (accepting t r none)
  unfolding accepting
  accepting-Settled t (err e) = tt
  accepting-Settled t (ok ln) =
      tagged-Settled (λ t. (transports t).conn) t ((transports t).accept accepted ln none)
        ((transports t).accept-Settled accepted ln)

  pub start_server_once-Settled :
      (c : Config) (nc : NoiseConfig) → Settled accepted_conn (start_server_once c nc none)
  unfolding start_server_once listen_with
  start_server_once-Settled c nc = on_transport (resolve_transport c)
    where
      on_transport : (r : Result Transport) → Settled accepted_conn (listen_with c nc r none)
      on_transport (err e) = tt
      on_transport (ok t) = accepting-Settled t (
          (transports t).listen (network c) (join_host_port c.src_host c.src_port) nc
            (transport_options env c))
