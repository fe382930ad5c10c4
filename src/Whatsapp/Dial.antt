-- ===== src/Whatsapp/Dial.antt =====
-- Dial, Listen and Accept of pkg/transport/whatsapp/whatsapp.go. The key pair comes from
-- keypairFromConfig, `rand` from crypto/rand; a websocket is a stream like any other.
use noisecat.Base.{
  ◌≡◌, ◌∙◌, ap, refl, true, false, ◌||◌, Option, none, some, [], ◌∷◌, Bytes, is_blank, says,
  if◌then◌else◌, ℤ, pos, Result, ok, err, ret, raise, Action, ◌>>=◌, ◌>>◌, Stream, close, not,
  Outcome, Bool,
}
use noisecat.Sockets.{
  Net, World, is_positive, opened, set_deadline, on_socket, dialer_with, shaken_cleared, Settled,
  shaken_cleared-Settled,
}
use noisecat.Whatsapp.Framing.{FramedConn, new_client_framed_conn}
use noisecat.Whatsapp.Noise.{Library, DhKeypair}
use noisecat.Whatsapp.Handshake.{client_handshake, server_handshake}
use noisecat.Whatsapp.Conn.{Conn, new_conn, new_deferred_server_conn, ensure_handshake}

-- 20 s, where the caller gives no time limit.
abbrev pub default_handshake_timeout : ℤ
default_handshake_timeout = pos 20000000000

unfoldable pub limit_of : ℤ → ℤ
limit_of timeout = if is_positive timeout then timeout else default_handshake_timeout

module _ (l : Library) (n : Net) (rand : Result Bytes) where
  open n use {Addr, resolve_tcp_addr, dial, listen}

  abbrev pub Verify : Type 0
  Verify = Bytes → Bytes → Result (Unit {0})

  -- The handshake over a new socket, within the time limit: the rest of dialBackend and of dialPeer.
  unfoldable pub shake_client : DhKeypair → ℤ → Option Verify → Stream → Action World (Conn l)
  shake_client static timeout verify raw = do
    set_deadline (some timeout)
    shaken_cleared (λ (f : FramedConn). f.rw) (λ hs f. new_conn l f hs)
        (client_handshake l rand static [] verify) (new_client_framed_conn raw)

  -- `ws` is what websocket.Dial returns; `verify` checks the certificate under the pinned root key.
  unfoldable pub dial_backend : Result Stream → DhKeypair → ℤ → Verify → Action World (Conn l)
  dial_backend ws static timeout verify = do
    nc ← opened ws
    shake_client static timeout (some verify) nc

  -- A local address that cannot be looked up is passed over.
  unfoldable pub peer_local : Bytes → Bytes → Option Addr
  peer_local network local =
      if is_blank local || says local ":0"
      then none
      else elim (resolve_tcp_addr network local) [ ok a ↦ some a | err e ↦ none ]

  unfoldable pub dial_peer : Bytes → Bytes → Bytes → DhKeypair → ℤ → Action World (Conn l)
  dial_peer network addr local static timeout = do
    raw ← opened (dial (dialer_with n timeout (peer_local network local)) network addr)
    shake_client static timeout none raw

  -- Transport.Dial; `host` is net.SplitHostPort's, empty where it fails.
  unfoldable pub transport_dial :
      Result Stream
      → Verify
      → ℤ
      → Bytes
      → Bytes
      → Bytes
      → Bytes
      → Result DhKeypair
      → Action World (Conn l)
  transport_dial ws verify timeout host network addr local (err e) w = raise e w
  transport_dial ws verify timeout host network addr local (ok static) w =
      if is_blank host
      then dial_backend ws static (limit_of timeout) verify w
      else dial_peer network addr local static (limit_of timeout) w

  pub record Listener : Type 0 where
    pub listener : n.Listener
    pub keypair : Result DhKeypair
    pub timeout : ℤ

  -- Transport.Listen; `keypair` is what keypairFromConfig gives for the configuration.
  unfoldable pub transport_listen : Bytes → Bytes → Result DhKeypair → ℤ → Result Listener
  transport_listen network laddr keypair timeout = elim (listen network laddr) [
    | ok inner ↦ ok (record { listener = inner; keypair = keypair; timeout = timeout })
    | err e ↦ err e
  ]

  -- The rest of Accept, which closes the connection where there is no key pair.
  unfoldable pub keyed : Result DhKeypair → ℤ → Stream → Action World (Conn l × ℤ)
  keyed (err e) limit raw w = raise e (on_socket (λ k. record k { stream = close k.stream }) w)
  keyed (ok static) limit raw w =
      let framed : FramedConn = record { rw = raw; write_header = false; read_header = true } in
      ret (new_deferred_server_conn l framed (server_handshake l rand static []), limit) w

  -- Accept, where net.Listener's Accept returns `accepted`: the connection and the time limit of its
  -- deferred handshake.
  unfoldable pub accept : Result Stream → Listener → Action World (Conn l × ℤ)
  accept accepted ln = do raw ← opened accepted; keyed ln.keypair (limit_of ln.timeout) raw

  abbrev pub conn_of : Conn l → Stream
  conn_of c = c.framed.rw

  shake_client-Settled :
      (static : DhKeypair) (timeout : ℤ) (verify : Option Verify) (r : Result Stream)
      → Settled conn_of ((opened r >>= shake_client static timeout verify) none)
  unfolding shake_client new_conn
  shake_client-Settled static timeout verify (ok s) =
      shaken_cleared-Settled (λ (f : FramedConn). f.rw) conn_of (λ hs f. new_conn l f hs)
        (client_handshake l rand static [] verify) (new_client_framed_conn s)
        (record { stream = s; deadline = some timeout }) (λ hs f. refl)
  shake_client-Settled static timeout verify (err e) = tt

  pub transport_dial-Settled :
      (ws : Result Stream) (verify : Verify) (timeout : ℤ) (host network addr local : Bytes)
      (keypair : Result DhKeypair)
      → Settled conn_of (transport_dial ws verify timeout host network addr local keypair none)
  unfolding transport_dial dial_backend dial_peer
  transport_dial-Settled ws verify timeout host network addr local (err e) = tt
  transport_dial-Settled ws verify timeout [] network addr local (ok static) =
      shake_client-Settled static (limit_of timeout) (some verify) ws
  transport_dial-Settled ws verify timeout (b ∷ host) network addr local (ok static) =
      shake_client-Settled static (limit_of timeout) none
        (dial (dialer_with n (limit_of timeout) (peer_local network local)) network addr)

  -- The connection of Accept, with its time limit.
  abbrev pub accepted_conn : Conn l × ℤ → Stream
  accepted_conn c = c.0.framed.rw

  pub accept-Settled :
      (accepted : Result Stream) (ln : Listener) → Settled accepted_conn (accept accepted ln none)
  unfolding accept keyed new_deferred_server_conn close
  accept-Settled (err e) ln = tt
  accept-Settled (ok s) ln = on_keypair ln.keypair
    where
      on_keypair :
          (kp : Result DhKeypair)
          → Settled accepted_conn
              (keyed kp (limit_of ln.timeout) s (some (record { stream = s; deadline = none })))
      on_keypair (ok static) = refl
      on_keypair (err e) = refl

module _ (l : Library) where
  abbrev on_stream : (Stream → Stream) → Conn l → Conn l
  on_stream f c = record c { framed = record c.framed { rw = f c.framed.rw } }

  -- Close and CloseWrite; `half` is the connection's own CloseWrite, where its type has one.
  unfoldable pub close_conn : Conn l → Conn l
  close_conn c = on_stream close c

  unfoldable pub close_write : Option (Stream → Stream) → Conn l → Conn l
  unfolding close_conn
  close_write none c = close_conn c
  close_write (some half) c = on_stream half c

  -- ensureHandshake on a connection whose deferred handshake has the time limit `timeout`: the deadline
  -- is set before the handshake and cleared behind its success. The Boolean says that it ran.
  unfoldable pub runs_handshake : Conn l → Bool
  runs_handshake c = elim c.hs_fn [ none ↦ false | some fn ↦ not c.hs_done ]

  limited : Bool → ℤ → Outcome (Conn l) (Unit {0}) → World → World
  limited false timeout o w = w
  limited true timeout (ret u c) w =
      if is_positive timeout then on_socket (λ k. record k { deadline = none }) w else w
  limited true timeout (raise e c) w =
      if is_positive timeout then on_socket (λ k. record k { deadline = some timeout }) w else w

  unfoldable pub ensure_limited : ℤ → Conn l → World → Outcome (Conn l) (Unit {0}) × World
  unfolding limited runs_handshake
  ensure_limited timeout c w =
      let o = ensure_handshake l c in (o, limited (runs_handshake c) timeout o w)

  abbrev fresh : Stream → World
  fresh s = some (record { stream = s; deadline = none })

  -- A deferred handshake that succeeds leaves the socket as it was, with no deadline.
  pub ensure_limited_ok :
      (timeout : ℤ) (c c' : Conn l) (s : Stream)
      → ensure_handshake l c ≡ ret tt c'
      → (ensure_limited timeout c (fresh s)).1 ≡ fresh s
  unfolding ensure_limited limited
  ensure_limited_ok timeout c c' s shakes =
      ap (λ o. limited (runs_handshake c) timeout o (fresh s)) shakes ∙ on_ran (runs_handshake c)
    where
      on_ran : (b : Bool) → limited b timeout (ret tt c') (fresh s) ≡ (fresh s)
      on_ran false = refl
      on_ran true = on_sign (is_positive timeout)
        where
          on_sign :
              (b : Bool)
              → (if b then on_socket (λ k. record k { deadline = none }) (fresh s) else (fresh s))
                ≡ (fresh s)
          on_sign true = refl
          on_sign false = refl
