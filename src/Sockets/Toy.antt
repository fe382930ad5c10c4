-- ===== src/Sockets/Toy.antt =====
-- A network on which every address is there, for the runs at concrete inputs.
use noisecat.Base.{Bytes, ok, open_stream, []}
use noisecat.Sockets.{Net}

-- What the peer will send is the address.
abbrev pub toy_net : Net
toy_net = record {
  Addr = Bytes;
  Listener = Bytes;
  resolve_tcp_addr = λ network a. ok a;
  dial = λ d network a. ok (open_stream a []);
  listen = λ network a. ok a;
}
