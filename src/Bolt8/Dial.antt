-- ===== src/Bolt8/Dial.antt =====
-- Dial, Listen and Accept of pkg/transport/bolt8/bolt8.go behind the check of the keys, and Close and
-- CloseWrite of conn.go.
use noisecat.Base.{
  refl, none, Bytes, ℤ, Result, ok, err, raise, Action, ◌>>=◌, pure, Stream, Option, some, close,
}
use noisecat.Sockets.{
  Net, World, opened, some_local, dialer_with, Settled, Unopened-Settled, some_local-Unopened,
  accepted-Settled,
}
use noisecat.Bolt8.Primitives.{Library}
use noisecat.Bolt8.Conn.{Conn, client, server}

module _ (l : Library) (n : Net) where
  open l use {PrivateKey, PublicKey}
  open n use {dial, listen}

  -- Transport.Dial; `keys` are the local and the remote key of the configuration, or why there are none.
  unfoldable pub transport_dial :
      ℤ → Bytes → Bytes → Bytes → Result (PrivateKey × PublicKey) → Action World (Conn l)
  transport_dial timeout network addr local (err e) w = raise e w
  transport_dial timeout network addr local (ok (priv, remote)) w =
      (do
        laddr ← some_local n network local
        raw ← opened (dial (dialer_with n timeout laddr) network addr)
        pure (client l raw priv remote))
        w

  pub record Listener : Type 0 where
    pub listener : n.Listener
    pub priv : PrivateKey

  unfoldable pub transport_listen : Bytes → Bytes → Result PrivateKey → Result Listener
  transport_listen network laddr (err e) = err e
  transport_listen network laddr (ok priv) = elim (listen network laddr) [
    | ok inner ↦ ok (record { listener = inner; priv = priv })
    | err e ↦ err e
  ]

  -- Accept, where net.Listener's Accept returns `accepted`.
  unfoldable pub accept : Result Stream → Listener → Action World (Conn l)
  accept accepted ln = do raw ← opened accepted; pure (server l raw ln.priv)

  abbrev pub conn_of : Conn l → Stream
  conn_of c = c.conn

  pub accept-Settled :
      (accepted : Result Stream) (ln : Listener) → Settled conn_of (accept accepted ln none)
  unfolding accept server
  accept-Settled accepted ln =
      accepted-Settled conn_of (λ s. server l s ln.priv) accepted (λ s. refl)

  dialled-Settled :
      (priv : PrivateKey) (remote : PublicKey) (r : Result Stream)
      → Settled conn_of ((opened r >>= λ raw. pure (client l raw priv remote)) none)
  unfolding client
  dialled-Settled priv remote (ok s) = refl
  dialled-Settled priv remote (err e) = tt

  pub transport_dial-Settled :
      (timeout : ℤ) (network addr local : Bytes) (keys : Result (PrivateKey × PublicKey))
      → Settled conn_of (transport_dial timeout network addr local keys none)
  unfolding transport_dial
  transport_dial-Settled timeout network addr local (err e) = tt
  transport_dial-Settled timeout network addr local (ok (priv, remote)) =
      Unopened-Settled conn_of (some_local n network local none) _
        (some_local-Unopened n network local)
        (λ laddr. dialled-Settled priv remote (dial (dialer_with n timeout laddr) network addr))

-- Close and CloseWrite; `half` is the connection's own CloseWrite, where its type has one.
unfoldable pub close_conn : {l : Library} → Conn l → Conn l
close_conn c = record c { conn = close c.conn }

unfoldable pub close_write : {l : Library} → Option (Stream → Stream) → Conn l → Conn l
unfolding close_conn
close_write none c = close_conn c
close_write (some half) c = record c { conn = half c.conn }
