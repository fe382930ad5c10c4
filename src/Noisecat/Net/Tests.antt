-- ===== src/Noisecat/Net/Tests.antt =====
-- StartClient and StartServer at concrete inputs.
use noisecat.Base.{
  ◌≡◌, ◌++◌, refl, true, false, some, none, [], ◌∷◌, Bytes, replicate, text, ok, err, open_stream,
}
use noisecat.Flynn.Toy.{toy}
use noisecat.Sockets.{Settled}
use noisecat.Sockets.Toy.{toy_net}
use noisecat.Bolt8.Primitives as Bolt8Primitives
use noisecat.Whatsapp.Noise as WhatsappNoise
use noisecat.Noisecat.Runners.{
  Io, proxied, to_proxy, snt, started, returned, signalled, reported, for_second, armed, set_phase,
  signal_end_of_write, push, ends, signals, reports, first,
}
use noisecat.Noisecat.Runners
use noisecat.Noisecat.Tests.{toy_env, xk_flags, xk_config}
use noisecat.Noisecat.Net.Serve
use noisecat.Noisecat.Net.Serve.{
  Server, listening, copies, dials_proxy, connects, setting_of, job_of, moves, Serve, accepts,
  interrupts, works, Reach, here, next, Forced,
}
use noisecat.Noisecat.Net.Serve.Counts.{IsSound, start_server-IsSound}
use noisecat.Noisecat.Net.Serve.Drains.{start_server_returns}
use noisecat.Noisecat.Net.Start.{conn_of, accepted_conn, start_client, start_server_once}
use noisecat.Noisecat.Net.Start.Libraries.{Libraries}
use noisecat.Noisecat.Net.Start.Transports.{transports, listens, start_settles}

abbrev toy_secp256k1 : Bolt8Primitives.Library
toy_secp256k1 = record {
  PrivateKey = Bytes;
  PublicKey = Bytes;
  FieldVal = Bytes;
  pub_key = λ k. k;
  serialize_compressed = λ q. q;
  parse_pub_key = λ b. some b;
  scalar_mult = λ k q. (k, q);
  is_odd = λ f. false;
  field_bytes = λ f. f;
  sha256 = λ b. replicate 32 0;
  hkdf = λ s t i n. replicate n 0;
  seal = λ k n p a. p;
  unseal = λ k n p a. some p;
}

abbrev toy_curve : WhatsappNoise.Library
toy_curve = record {
  Aead = Bytes;
  x25519 = λ k q. ok q;
  basepoint = [];
  sha256 = λ b. replicate 32 0;
  hkdf = λ s t i n. replicate n 0;
  new_cipher = λ k. ok k;
  seal = λ k n p a. p;
  unseal = λ k n p a. ok p;
}

abbrev toy_libraries : Libraries
toy_libraries = record {
  env = toy_env;
  net = toy_net;
  join_host_port = λ host port. host ++ b':' ∷ port;
  host_of = λ addr. addr;
  noise = toy;
  configured = λ nc. 2;
  no_config = 0;
  base64 = record { encode = λ b. b; decode = λ b. ok b };
  quoted = λ b. b;
  expired = false;
  secp256k1 = toy_secp256k1;
  private_key = λ b. b;
  curve = toy_curve;
  rand = ok (replicate 32 7);
  generated = err (text "no randomness");
  websocket = err (text "no route to host");
  verify = λ cert static. ok tt;
  kcp = λ addr. ok (open_stream addr []);
  kcp_listen = λ addr. ok addr;
}

start_settles_example :
    Settled (conn_of (transports toy_libraries)) (
      start_client toy_env
        (transports toy_libraries)
        toy_libraries.join_host_port
        xk_flags
        xk_config
        none)
    × Settled
        (accepted_conn toy_env
          (listens toy_libraries)
          toy_libraries.join_host_port
          (ok (open_stream [] [])))
        (start_server_once toy_env
          (listens toy_libraries)
          toy_libraries.join_host_port
          (ok (open_stream [] []))
          xk_flags
          xk_config
          none)
start_settles_example = start_settles toy_libraries (ok (open_stream [] [])) xk_flags xk_config

-- A connection is accepted, its peer's direction ends, the server is interrupted.
abbrev io1 : Io
io1 = set_phase snt returned started

abbrev io2 : Io
io2 = set_phase snt signalled (signal_end_of_write proxied snt io1)

abbrev io3 : Io
io3 = set_phase snt reported (push snt io2)

abbrev io4 : Io
io4 = record io3 { waiting = for_second; ch = []; timer = armed }

abbrev serving : Io → Server
serving s = record listening { jobs = copies s ∷ []; wg = 1 }

abbrev accepted : Reach to_proxy listening (serving started)
unfolding job_of
accepted = next (next here (accepts listening refl refl)) (
    works [] dials_proxy (copies started) [] (record listening { jobs = dials_proxy ∷ []; wg = 1 })
      refl connects)

abbrev move :
    (s t : Io) → Runners.Step proxied true s t → Serve to_proxy true (serving s) (serving t)
move s t st = works [] (copies s) (copies t) [] (serving s) refl (moves st)

abbrev stopped_server : Server
stopped_server = record (serving io4) { interrupted = true; is_open = false }

server_run : Reach to_proxy listening stopped_server
unfolding job_of
server_run =
    next
      (next
        (next
          (next
            (next accepted (
              works [] (copies started) (copies io1) [] (serving started) refl
                (moves (ends snt started refl))))
            (move io1 io2 (signals snt io1 refl)))
          (move io2 io3 (reports snt io2 refl)))
        (move io3 io4 (first snt [] io3 refl refl)))
      (interrupts (serving io4) refl)

start_server-IsSound_example : IsSound (setting_of to_proxy) stopped_server
start_server-IsSound_example = start_server-IsSound to_proxy server_run

start_server_returns_example :
    (t : Server) × Forced to_proxy stopped_server t × (t.stage ≡ Serve.returned)
start_server_returns_example =
    start_server_returns to_proxy (λ e. cc e) server_run refl ((λ e. cc e), tt)
