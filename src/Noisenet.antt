-- ===== src/Noisenet.antt =====
-- pkg/noisenet/conn.go: the names of the raw transport under an older package. Its types Conn and
-- Listener are aliases.
use noisecat.Base.{Bool, Option, Bytes, Result, Action, Stream}
use noisecat.Flynn.{NoiseLibrary}
use noisecat.Sockets.{Net, Dialer, World}
use noisecat.Raw.Conn.{Conn}
use noisecat.Raw.Conn as RawConn
use noisecat.Raw.Dial as RawDial
use noisecat.Raw.Dial.{Listener}

module _ (l : NoiseLibrary) where
  unfoldable pub server : Stream → l.Config → Conn l
  server s cfg = RawConn.server l s cfg

  unfoldable pub client : Stream → l.Config → Conn l
  client s cfg = RawConn.client l s cfg

  module _ (n : Net) where
    unfoldable pub listen : Bytes → Bytes → Option l.Config → Result (Listener l n)
    listen network laddr cfg = RawDial.listen_raw l n network laddr cfg

    unfoldable pub dial : Bytes → Bytes → Bytes → Option l.Config → Action World (Conn l)
    dial network addr local cfg = RawDial.dial_plain l n network addr local cfg

    unfoldable pub dial_with_dialer :
        Bool → Dialer n.Addr → Bytes → Bytes → Bytes → Option l.Config → Action World (Conn l)
    dial_with_dialer expired d network addr local cfg =
        RawDial.dial_with_dialer l n expired d network addr local cfg
