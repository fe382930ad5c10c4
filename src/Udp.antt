-- ===== src/Udp.antt =====
-- pkg/transport/udp/udp.go: the raw transport over sessions of github.com/xtaci/kcp-go, whose
-- DialWithOptions and ListenWithOptions are parameters. The tuning of a session is the library's.
use noisecat.Base.{
  refl, pure, ◌>>=◌, true, false, Bool, Option, none, some, Bytes, if◌then◌else◌, ℤ, Result, ok,
  err, ret, Action, ◌>>◌, Stream,
}
use noisecat.Flynn.{NoiseLibrary}
use noisecat.Sockets.{
  World, is_positive, opened, set_deadline, shaken_cleared, Settled, shaken_cleared-Settled,
  accepted-Settled,
}
use noisecat.Raw.Conn.{Conn, client, server, handshake}
use noisecat.Raw.Prologue.{udp_prologue}

module _ (l : NoiseLibrary) where
  open l use {Config, prologue, with_prologue}

  with_some : Config → Option Bytes → Config
  with_some cfg none = cfg
  with_some cfg (some p) = with_prologue p cfg

  -- applyPrologue; a configuration is never nil here.
  unfoldable pub apply_option : Bytes → Config → Config
  unfolding with_some
  apply_option p cfg = with_some cfg (udp_prologue (some (prologue cfg)) p)

  -- `if opts.DialTimeout > 0 { session.SetDeadline(...) }`
  abbrev pub limit : ℤ → Action World (Unit {0})
  limit timeout w = if is_positive timeout then set_deadline (some timeout) w else ret tt w

  unfoldable pub shake_session : Config → ℤ → Stream → Action World (Conn l)
  shake_session cfg timeout session = do
    limit timeout
    shaken_cleared (λ (c : Conn l). c.conn) (λ u c. c) (handshake l) (client l session cfg)

  -- Transport.Dial; `session` is what DialWithOptions returns for the address.
  unfoldable pub transport_dial : Result Stream → Bytes → ℤ → Config → Action World (Conn l)
  transport_dial session p timeout cfg = do
    s ← opened session
    shake_session (apply_option p cfg) timeout s

  module _ {KcpListener : Type 0} where
    -- Transport.Listen; `inner` is what ListenWithOptions returns.
    unfoldable pub transport_listen :
        Result KcpListener → Bytes → Config → Result (KcpListener × Config)
    transport_listen (ok inner) p cfg = ok (inner, apply_option p cfg)
    transport_listen (err e) p cfg = err e

    -- Accept, where AcceptKCP returns `accepted`. The handshake is left to the connection.
    unfoldable pub accept : Result Stream → KcpListener × Config → Action World (Conn l)
    accept accepted ln = do session ← opened accepted; pure (server l session ln.1)

    pub accept-Settled :
        (accepted : Result Stream) (ln : KcpListener × Config)
        → Settled (λ (c : Conn l). c.conn) (accept accepted ln none)
    unfolding accept server
    accept-Settled accepted ln =
        accepted-Settled (λ (c : Conn l). c.conn) (λ s. server l s ln.1) accepted (λ s. refl)

  abbrev pub conn_of : Conn l → Stream
  conn_of c = c.conn

  shake_session-Settled :
      (cfg : Config) (timeout : ℤ) (s : Stream)
      → Settled conn_of
          (shake_session cfg timeout s (some (record { stream = s; deadline = none })))
  unfolding shake_session
  shake_session-Settled cfg timeout s = on_limit (is_positive timeout)
    where
      on_limit :
          (b : Bool)
          → Settled conn_of (
              ((λ w. if b then set_deadline (some timeout) w else ret tt w)
                  >> shaken_cleared
                      (λ (c : Conn l). c.conn)
                      (λ u c. c)
                      (handshake l)
                      (client l s cfg))
                (some (record { stream = s; deadline = none })))
      on_limit true =
          shaken_cleared-Settled conn_of conn_of (λ u c. c) (handshake l) (client l s cfg)
            (record { stream = s; deadline = some timeout }) (λ u c. refl)
      on_limit false =
          shaken_cleared-Settled conn_of conn_of (λ u c. c) (handshake l) (client l s cfg)
            (record { stream = s; deadline = none }) (λ u c. refl)

  pub transport_dial-Settled :
      (session : Result Stream) (p : Bytes) (timeout : ℤ) (cfg : Config)
      → Settled conn_of (transport_dial session p timeout cfg none)
  unfolding transport_dial
  transport_dial-Settled (ok s) p timeout cfg = shake_session-Settled (apply_option p cfg) timeout s
  transport_dial-Settled (err e) p timeout cfg = tt
