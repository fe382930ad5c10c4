-- ===== src/Raw/Dial.antt =====
-- DialWithDialer, Listen and Accept of pkg/transport/raw/conn.go, and Dial and Listen of raw.go. A nil
-- configuration is none.
pub mod Race
pub mod Settles
mod Tests
use noisecat.Base.{
  Bool, true, false, not, ◌&&◌, ◌||◌, Option, none, some, Bytes, is_blank, says, if◌then◌else◌, ℤ,
  pos, negsuc, ltb, Error, text, panics, Result, ok, err, ret, raise, Action, ◌>>=◌, ◌>>◌, fail,
  pure, Stream, close,
}
use noisecat.Results
use noisecat.Flynn.{NoiseLibrary}
use noisecat.Sockets.{Net, Dialer, World, opened, on_socket, shaken, looked_up, dialer_with}
use noisecat.Raw.Conn.{Conn, client, server, handshake}
use noisecat.Raw.Prologue.{raw_prologue}

abbrev pub is_zero : ℤ → Bool
is_zero (pos n) = not (ltb 0 n)
is_zero (negsuc n) = false

abbrev pub lt_ℤ : ℤ → ℤ → Bool
lt_ℤ (pos a) (pos b) = ltb a b
lt_ℤ (pos a) (negsuc b) = false
lt_ℤ (negsuc a) (pos b) = true
lt_ℤ (negsuc a) (negsuc b) = ltb b a

-- The time limit of dialing and handshake as a whole: the earlier of Timeout, unless it is zero, and
-- Deadline.
unfoldable pub time_limit : ℤ → Option ℤ → ℤ
time_limit timeout none = timeout
time_limit timeout (some left) = if is_zero timeout || lt_ℤ left timeout then left else timeout

abbrev pub timed_out : Error
timed_out = text "noise: DialWithDialer timed out"

module _ (l : NoiseLibrary) (n : Net) where
  open l use {Config, prologue, with_prologue}
  open n use {Addr, resolve_tcp_addr, dial, listen}

  -- `if localAddr != "" && localAddr != ":0"`
  unfoldable pub resolve_local : Bytes → Bytes → Option Addr → Action World (Option Addr)
  resolve_local network local given w =
      if is_blank local || says local ":0"
      then ret given w
      else looked_up (resolve_tcp_addr network local) w

  -- The handshake without a time limit, and under one. `expired` tells whether the timer's error is
  -- the first on the channel (Race); the handshake's goroutine is then left to itself.
  unfoldable pub shake_within : Bool → ℤ → Conn l → Action World (Conn l)
  shake_within expired limit c w =
      if not (is_zero limit) && expired
      then raise timed_out (on_socket (λ k. record k { stream = close k.stream }) w)
      else shaken (λ (c : Conn l). c.conn) (λ u c. c) (handshake l) c w

  unfoldable pub dial_with_dialer :
      Bool → Dialer Addr → Bytes → Bytes → Bytes → Option Config → Action World (Conn l)
  dial_with_dialer expired d network addr local none = fail (text "empty noise.Config")
  dial_with_dialer expired d network addr local (some cfg) = do
    local_tcp ← resolve_local network local d.local_addr
    raw_conn ← opened (dial (record d { local_addr = local_tcp }) network addr)
    shake_within expired (time_limit d.timeout d.deadline) (client l raw_conn cfg)

  -- The package's Dial, with a new net.Dialer.
  unfoldable pub dial_plain : Bytes → Bytes → Bytes → Option Config → Action World (Conn l)
  dial_plain network addr local cfg =
      dial_with_dialer false (dialer_with n (pos 0) none) network addr local cfg

  abbrev pub with_option : Bytes → Config → Config
  with_option p cfg = with_prologue (raw_prologue (prologue cfg) p) cfg

  -- applyPrologue reads the configuration, which must not be nil.
  unfoldable pub apply_option : Bytes → Option Config → Result (Option Config)
  apply_option p none = if is_blank p then ok none else err (panics "nil pointer dereference")
  apply_option p (some cfg) = ok (some (with_option p cfg))

  -- Transport.Dial
  unfoldable pub transport_dial :
      Bool → ℤ → Bytes → Bytes → Bytes → Bytes → Option Config → Action World (Conn l)
  transport_dial expired timeout p network addr local cfg w = elim (apply_option p cfg) [
    | ok cfg' ↦ dial_with_dialer expired (dialer_with n timeout none) network addr local cfg' w
    | err e ↦ raise e w
  ]

  pub record Listener : Type 0 where
    pub listener : n.Listener
    pub config : Config

  unfoldable pub listen_raw : Bytes → Bytes → Option Config → Result Listener
  listen_raw network laddr none = err (text "noise: no Config set")
  listen_raw network laddr (some cfg) = elim (listen network laddr) [
    | ok inner ↦ ok (record { listener = inner; config = cfg })
    | err e ↦ err e
  ]

  -- Transport.Listen
  unfoldable pub transport_listen : Bytes → Bytes → Bytes → Option Config → Result Listener
  transport_listen p network laddr cfg = elim (apply_option p cfg) [
    | ok cfg' ↦ listen_raw network laddr cfg'
    | err e ↦ err e
  ]

  -- Accept, where net.Listener's Accept returns `accepted`. The handshake is left to the connection.
  unfoldable pub accept : Result Stream → Listener → Action World (Conn l)
  accept accepted ln = do c ← opened accepted; pure (server l c ln.config)

module _ (l : NoiseLibrary) where
  -- Close
  unfoldable pub close_conn : Conn l → Conn l
  close_conn c = record c { conn = close c.conn }

  -- CloseWrite; `half` is the connection's own CloseWrite, where its type has one.
  unfoldable pub close_write : Option (Stream → Stream) → Conn l → Conn l
  unfolding close_conn
  close_write none c = close_conn c
  close_write (some half) c = record c { conn = half c.conn }
