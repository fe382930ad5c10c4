-- ===== src/Whatsapp/Proto/Field.antt =====
-- pkg/transport/whatsapp/proto.go: the field numbers of the handshake messages.
use noisecat.Base.{ℕ}

abbrev pub client_hello : ℕ
client_hello = 2

abbrev pub server_hello : ℕ
server_hello = 3

abbrev pub client_finish : ℕ
client_finish = 4

abbrev pub hello_ephemeral : ℕ
hello_ephemeral = 1

abbrev pub hello_static : ℕ
hello_static = 2

abbrev pub hello_payload : ℕ
hello_payload = 3

abbrev pub finish_static : ℕ
finish_static = 1

abbrev pub finish_payload : ℕ
finish_payload = 2
