-- ===== src/Raw/Dial/Settles.antt =====
-- What the functions of Raw.Dial leave behind.
use noisecat.Base.{
  refl, [], ◌∷◌, ◌>>=◌, Bool-cases, inl, inr, Bool, not, ◌&&◌, ◌||◌, Option, none, some, Bytes,
  is_blank, says, ok, err, Stream, close, ℤ, Result,
}
use noisecat.Flynn.{NoiseLibrary}
use noisecat.Sockets.{
  Net, Dialer, World, opened, Settled, dialer_with, Unopened, Unopened-Settled, shaken-Settled,
  looked_up-Unopened, accepted-Settled,
}
use noisecat.Raw.Conn.{Conn, client, server, handshake}
use noisecat.Raw.Dial.{
  resolve_local, shake_within, dial_with_dialer, apply_option, with_option, transport_dial, is_zero,
  time_limit, Listener, accept,
}

module _ (l : NoiseLibrary) (n : Net) where
  open l use {Config}
  open n use {Addr, resolve_tcp_addr, dial}

  abbrev pub conn_of : Conn l → Stream
  conn_of c = c.conn

  abbrev fresh : Stream → World
  fresh s = some (record { stream = s; deadline = none })

  pub accept-Settled :
      (accepted : Result Stream) (ln : Listener l n) → Settled conn_of (accept l n accepted ln none)
  unfolding accept server
  accept-Settled accepted ln =
      accepted-Settled conn_of (λ s. server l s ln.config) accepted (λ s. refl)

  shake_within-Settled :
      (expired : Bool) (limit : ℤ) (c : Conn l) (s : Stream)
      → Settled conn_of (shake_within l n expired limit c (fresh s))
  unfolding shake_within close
  shake_within-Settled expired limit c s = elim (Bool-cases (not (is_zero limit) && expired)) [
    | inl late ↦ rw late refl
    | inr early ↦
        rw early (shaken-Settled conn_of conn_of (λ u d. d) (handshake l) c s (λ u d. refl))
  ]

  dialled-Settled :
      (expired : Bool) (limit : ℤ) (cfg : Config) (r : Result Stream)
      → Settled conn_of ((opened r >>= λ s. shake_within l n expired limit (client l s cfg)) none)
  dialled-Settled expired limit cfg (ok s) = shake_within-Settled expired limit (client l s cfg) s
  dialled-Settled expired limit cfg (err e) = tt

  resolve_local-Unopened :
      (network local : Bytes) (given : Option Addr)
      → Unopened (resolve_local l n network local given none)
  unfolding resolve_local
  resolve_local-Unopened network local given =
      elim (Bool-cases (is_blank local || says local ":0")) [
        | inl absent ↦ rw absent refl
        | inr named ↦ rw named (looked_up-Unopened (resolve_tcp_addr network local))
      ]

  dial_with_dialer-Settled :
      (expired : Bool) (d : Dialer Addr) (network addr local : Bytes) (cfg : Option Config)
      → Settled conn_of (dial_with_dialer l n expired d network addr local cfg none)
  unfolding dial_with_dialer
  dial_with_dialer-Settled expired d network addr local none = tt
  dial_with_dialer-Settled expired d network addr local (some cfg) =
      Unopened-Settled conn_of (resolve_local l n network local d.local_addr none) _
        (resolve_local-Unopened network local d.local_addr)
        (λ local_tcp.
          dialled-Settled expired (time_limit d.timeout d.deadline) cfg
            (dial (record d { local_addr = local_tcp }) network addr))

  pub transport_dial-Settled :
      (expired : Bool) (timeout : ℤ) (p network addr local : Bytes) (cfg : Option Config)
      → Settled conn_of (transport_dial l n expired timeout p network addr local cfg none)
  unfolding transport_dial apply_option dial_with_dialer
  transport_dial-Settled expired timeout p network addr local (some cfg) =
      dial_with_dialer-Settled expired (dialer_with n timeout none) network addr local
        (some (with_option l n p cfg))
  transport_dial-Settled expired timeout [] network addr local none = tt
  transport_dial-Settled expired timeout (b ∷ p) network addr local none = tt
