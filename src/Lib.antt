-- ===== src/Lib.antt =====
-- noisecat: a netcat over the Noise protocol. This library models the program's own logic in pkg/
-- and cmd/ and proves what makes it correct.
--
-- The flags become a configuration (pkg/noisecat), which is checked, provisioned with keys and
-- turned into a Noise configuration, a transport and its options. The program dials or accepts a
-- TCP connection and lays one of four transports over it, or the raw one over UDP, each a package
-- below pkg/transport that implements net.Conn. A transport runs a handshake on the first read or
-- write, keeps one cipher state per direction, cuts what is written into messages and buffers
-- what a read does not take. The transports share nothing but the standard library's connection;
-- raw and noisesocket leave the cryptography to github.com/flynn/noise.
--
-- - Base and its children: shared names, lists and tests over native numbers, errors as values, a
--   method as an action on its receiver's state (Actions), and a net.Conn as a byte stream each
--   way (Streams). Results: fallible steps without state.
-- - Bolt8: pkg/transport/bolt8. Primitives is primitives.go, Handshake is handshake.go, Conn is
--   conn.go; Dial is bolt8.go; Agreement, Transport, Session, Rekey and Faults prove things about
--   them. secp256k1, SHA-256, HKDF and ChaCha20-Poly1305 are the parameter Library, their
--   documented behaviour is IsSound.
-- - Whatsapp: pkg/transport/whatsapp. Framing is framing.go, Varint and Proto are proto.go, Cert
--   is cert.go, Noise and Handshake are handshake.go, Conn is conn.go, Dial is whatsapp.go.
--   X25519, SHA-256, HKDF, AES-GCM, ed25519, field arithmetic and the clock are parameters.
-- - Flynn: github.com/flynn/noise as a parameter, NoiseLibrary, with its documented behaviour
--   IsCipher and IsHandshake; Parts and Wire say how a byte string is cut and framed. Toy is an
--   instance for the runs.
-- - Sockets: the package net as a parameter and the one socket that a call of Dial opens, with
--   its deadline. The modules called Dial stand on it.
-- - Raw: pkg/transport/raw. Prologue is applyPrologue of raw.go and of pkg/transport/udp/udp.go.
--   Conn is conn.go; Established, Session, Channel, Handshake and Faults prove things about it;
--   Channel has a queue of bytes as the specification of one direction. Dial has DialWithDialer,
--   Listen and Accept of conn.go and what raw.go makes of them; Race has the time limit, the
--   handshake and the caller as steps, Settles is about what a call leaves behind. Udp is
--   pkg/transport/udp, over the sessions of kcp-go; Noisenet is pkg/noisenet.
-- - Noisesocket: pkg/transport/noisesocket. Framing and Conn are conn.go, Neg is negotiation.go,
--   Conn.Negotiate is handshake_neg.go, Dial is noisesocket.go; Frames, RoundTrip, Session,
--   Calls, Rounds, Handshake, Adoption, Drive, Ends, Accepted, Retry, Retried, Switch, Switched
--   and Faults prove things about them; base64, the quoting of names and the factory of
--   configurations are parameters.
--
-- - Noisecat: pkg/noisecat and cmd/noisecat. Names is protocols.go and parseProtocolName of
--   utils.go (Match, Parts and Grammar say which texts it accepts, Missing what the error lists);
--   Config is conf.go (Lists about splitList); Keys is validate.go, secp256k1_keys.go and the key
--   files of conf.go (Validate about ValidateStaticKey); Noise is noise.go (Material and
--   Provisioned about its result); Parse is ParseConfig (Flags and Accepted about its checks);
--   Net is net.go (Resolve about the transport chosen; Dial has the keys that
--   pkg/transport/bolt8/bolt8.go and pkg/transport/whatsapp/whatsapp.go take from a
--   configuration; Start is StartClient and StartServer without -k over the interfaces Dials and
--   Listens, which its Transports fills with the five transports over its Libraries; Serve is
--   StartServer with -k as a step relation, Counts and Drains are about its runs); Runners is
--   runners.go, with handleIO as a step relation (Copies and Returns about its runs, under the
--   assumption, for net.Conn but not for os.Stdin, that io.Copy returns once its ends are closed;
--   Closing is fullClose and signalEndOfWrite; Idle is timeout.go); Main is main.go around
--   flag.Parse (Roles about what it starts). Base64, JSON, files, net.SplitHostPort, shellwords,
--   the random source and the curves are parameters, most of them in the record Keys.Env.
--
-- The Tests modules hold small instances of the parameters and the theorems at concrete inputs.
--
-- Bounds and fuel: a loop `for len(p) > 0` takes a byte at least in each round, so that the
-- length of the input is enough rounds; the protobuf parser's loop likewise; appendVarint has ten
-- groups at most for a uint64, so nine rounds behind the first; the negotiation has its own bound
-- of four attempts. A time limit is a 64-bit count of nanoseconds with its wrap-around. Counters
-- keep their wrap-around (uint32 in whatsapp); lengths on the wire are 16 or 24 bits.
--
-- Not modelled: locks and deadlines inside a connection (a call runs as a whole); in handleIO the
-- bytes that are moved; the effect of a deadline, and the dialing and listening of the package
-- net and of the websocket and KCP libraries, which are parameters; the run of a command;
-- flag.Parse and the usage texts; and logging. Texts of the configuration are ASCII.
pub mod Base
pub mod Results
pub mod Sockets
pub mod Bolt8
pub mod Whatsapp
pub mod Flynn
pub mod Raw
pub mod Udp
pub mod Noisenet
pub mod Noisesocket
pub mod Noisecat
