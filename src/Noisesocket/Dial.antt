-- ===== src/Noisesocket/Dial.antt =====
-- pkg/transport/noisesocket/noisesocket.go, and the constructors of conn.go. `no_config` stands for the
-- nil cfg of a connection with a negotiation, where it plays no part.
use noisecat.Base.{
  ◌≡◌, refl, pure, ◌>>=◌, Bool, true, false, Option, none, some, Bytes, ℤ, text, Result, ok, err,
  Action, ◌>>◌, guard, Stream, ap, Bool-cases, inl, inr, [], if◌then◌else◌, close,
}
use noisecat.Flynn.{NoiseLibrary}
use noisecat.Sockets.{
  Net, World, opened, some_local, dialer_with, Settled, Unopened-Settled, some_local-Unopened,
  accepted-Settled,
}
use noisecat.Noisesocket.Neg.{Base64}
use noisecat.Noisesocket.Conn.{Conn, client, server}
use noisecat.Noisesocket.Conn.Negotiate.{Negotiation}

module _ (l : NoiseLibrary) (b64 : Base64) (quoted : Bytes → Bytes) (n : Net)
    (no_config : l.Config) where
  open l use {Config}
  open n use {dial, listen}

  abbrev pub Neg : Type 0
  Neg = Negotiation l b64 quoted

  -- The parts of transport.Options that the package reads.
  pub record Options : Type 0 where
    pub prologue : Bytes
    pub negotiation_data : Bytes
    pub dial_timeout : ℤ
    pub negotiation : Option Neg

  -- A connection with its negotiation, or nil.
  abbrev pub Connection : Type 0
  Connection = Conn l × Option Neg

  unfoldable pub client_with_negotiation : Stream → Neg → Bytes → Connection
  client_with_negotiation s neg app = (client l s no_config [] app, some neg)

  unfoldable pub server_with_negotiation : Stream → Neg → Bytes → Connection
  server_with_negotiation s neg app = (server l s no_config [] app, some neg)

  abbrev pub is_configured : Option Config → Option Neg → Bool
  is_configured none none = false
  is_configured cfg neg = true

  abbrev pub or_nil : Option Config → Config
  or_nil none = no_config
  or_nil (some cfg) = cfg

  -- What Dial returns over a socket.
  unfoldable pub wrap_client : Option Config → Options → Stream → Connection
  wrap_client cfg opts s = elim opts.negotiation [
    | none ↦ (client l s (or_nil cfg) opts.negotiation_data opts.prologue, none)
    | some neg ↦ client_with_negotiation s neg opts.prologue
  ]

  -- Transport.Dial
  unfoldable pub transport_dial :
      Bytes → Bytes → Bytes → Option Config → Options → Action World Connection
  transport_dial network addr local cfg opts = do
    guard (is_configured cfg opts.negotiation) (text "noisesocket: nil noise.Config")
    laddr ← some_local n network local
    raw ← opened (dial (dialer_with n opts.dial_timeout laddr) network addr)
    pure (wrap_client cfg opts raw)

  pub record Listener : Type 0 where
    pub listener : n.Listener
    pub cfg : Option Config
    pub opts : Options

  -- Transport.Listen
  unfoldable pub transport_listen : Bytes → Bytes → Option Config → Options → Result Listener
  transport_listen network laddr cfg opts =
      if is_configured cfg opts.negotiation
      then elim (listen network laddr) [
        | ok inner ↦ ok (record { listener = inner; cfg = cfg; opts = opts })
        | err e ↦ err e
      ]
      else err (text "noisesocket: nil noise.Config")

  -- Accept, where net.Listener's Accept returns `accepted`.
  unfoldable pub wrap_server : Option Config → Options → Stream → Connection
  wrap_server cfg opts s = elim opts.negotiation [
    | none ↦ (server l s (or_nil cfg) opts.negotiation_data opts.prologue, none)
    | some neg ↦ server_with_negotiation s neg opts.prologue
  ]

  unfoldable pub accept : Result Stream → Listener → Action World Connection
  accept accepted ln = do raw ← opened accepted; pure (wrap_server ln.cfg ln.opts raw)

  abbrev pub conn_of : Connection → Stream
  conn_of c = c.0.conn

  wrap_server-conn :
      (cfg : Option Config) (opts : Options) (s : Stream) → conn_of (wrap_server cfg opts s) ≡ s
  unfolding wrap_server server_with_negotiation server
  wrap_server-conn cfg opts s = on_negotiation opts.negotiation
    where
      on_negotiation :
          (o : Option Neg)
          → conn_of (elim o [
            | none ↦ (server l s (or_nil cfg) opts.negotiation_data opts.prologue, none)
            | some neg ↦ server_with_negotiation s neg opts.prologue
          ])
            ≡ s
      on_negotiation none = refl
      on_negotiation (some neg) = refl

  pub accept-Settled :
      (accepted : Result Stream) (ln : Listener) → Settled conn_of (accept accepted ln none)
  unfolding accept
  accept-Settled accepted ln =
      accepted-Settled conn_of (wrap_server ln.cfg ln.opts) accepted
        (wrap_server-conn ln.cfg ln.opts)

  wrap_client-conn :
      (cfg : Option Config) (opts : Options) (s : Stream) → s ≡ conn_of (wrap_client cfg opts s)
  unfolding wrap_client client_with_negotiation client
  wrap_client-conn cfg opts s = on_negotiation opts.negotiation
    where
      on_negotiation :
          (o : Option Neg)
          → s
            ≡ conn_of (elim o [
              | none ↦ (client l s (or_nil cfg) opts.negotiation_data opts.prologue, none)
              | some neg ↦ client_with_negotiation s neg opts.prologue
            ])
      on_negotiation none = refl
      on_negotiation (some neg) = refl

  dialled-Settled :
      (cfg : Option Config) (opts : Options) (r : Result Stream)
      → Settled conn_of ((opened r >>= λ raw. pure (wrap_client cfg opts raw)) none)
  dialled-Settled cfg opts (ok s) =
      ap (λ x. some (record { stream = x; deadline = none })) (wrap_client-conn cfg opts s)
  dialled-Settled cfg opts (err e) = tt

  pub transport_dial-Settled :
      (network addr local : Bytes) (cfg : Option Config) (opts : Options)
      → Settled conn_of (transport_dial network addr local cfg opts none)
  unfolding transport_dial
  transport_dial-Settled network addr local cfg opts =
      elim (Bool-cases (is_configured cfg opts.negotiation)) [
        | inl given ↦ rw given (
            Unopened-Settled conn_of (some_local n network local none) _
              (some_local-Unopened n network local)
              (λ laddr.
                dialled-Settled cfg opts
                  (dial (dialer_with n opts.dial_timeout laddr) network addr)))
        | inr nil ↦ rw nil tt
      ]

module _ (l : NoiseLibrary) where
  -- Close and CloseWrite; `half` is the connection's own CloseWrite, where its type has one.
  unfoldable pub close_conn : Conn l → Conn l
  close_conn c = record c { conn = close c.conn }

  unfoldable pub close_write : Option (Stream → Stream) → Conn l → Conn l
  unfolding close_conn
  close_write none c = close_conn c
  close_write (some half) c = record c { conn = half c.conn }
