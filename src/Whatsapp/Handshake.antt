-- ===== src/Whatsapp/Handshake.antt =====
-- pkg/transport/whatsapp/handshake.go: clientHandshake and serverHandshake, in the parts that the
-- three messages cut them into. `rand` is what crypto/rand gives for the ephemeral key; `verify` is
-- verifyServerCert at the time of the call, with the pinned key, or nothing for a nil rootKey.
pub mod Messages
pub mod Agreement
use noisecat.Base.{
  Option, none, some, Bytes, length, ◌==◌, text, Result, ok, Action, ◌>>=◌, ◌>>◌, pure, lift, guard,
  wrapping, wrapped,
}
use noisecat.Whatsapp.Framing.{FramedConn, wa_conn_header, write_frame, read_frame}
use noisecat.Whatsapp.Proto.{
  ServerHello, marshal_client_hello, marshal_server_hello, marshal_client_finish,
  unmarshal_client_hello, unmarshal_server_hello, unmarshal_client_finish, elements,
}
use noisecat.Whatsapp.Noise.{
  Library, DhKeypair, NoiseHandshake, noise_start_pattern, start, generate_keypair, authenticate,
  encrypt, decrypt, mix_shared_secret_into_key, HandshakeResult, client_keys, server_keys,
}

module _ (l : Library) where
  -- Everything up to the ClientHello: the ephemeral pair and the state.
  unfoldable pub send_client_hello : Result Bytes → Action FramedConn (DhKeypair × NoiseHandshake l)
  send_client_hello rand = do
    nh ← lift (start l noise_start_pattern wa_conn_header)
    eph ← lift (generate_keypair l rand)
    wrapping "whatsapp: send ClientHello" (write_frame (marshal_client_hello eph.public))
    pure (eph, authenticate l eph.public nh)

  -- The ServerHello: its ephemeral key, the server's static key, and the state.
  unfoldable pub receive_server_hello :
      Option (Bytes → Bytes → Result (Unit {0}))
      → DhKeypair
      → NoiseHandshake l
      → Action FramedConn (Bytes × Bytes × NoiseHandshake l)
  receive_server_hello verify eph nh0 = do
    resp ← wrapping "whatsapp: read ServerHello" read_frame
    sh ← lift (unmarshal_server_hello resp)
    nh1 ← lift (
        wrapped "whatsapp: mix server ephemeral"
          (mix_shared_secret_into_key l eph.priv sh.ephemeral (authenticate l sh.ephemeral nh0)))
    (static, nh2) ← lift (wrapped "whatsapp: decrypt server static" (decrypt l sh.static nh1))
    guard (length static == 32) (text "whatsapp: server static length")
    nh3 ←
        lift
          (wrapped "whatsapp: mix server static" (mix_shared_secret_into_key l eph.priv static nh2))
    (cert, nh4) ← lift (wrapped "whatsapp: decrypt certificate" (decrypt l sh.payload nh3))
    lift (elim verify [
      | none ↦ ok tt
      | some v ↦ wrapped "whatsapp: verify server cert" (v cert static)
    ])
    pure (sh.ephemeral, static, nh4)

  -- The ClientFinish, and the state behind it.
  unfoldable pub send_client_finish :
      DhKeypair → Bytes → Bytes → NoiseHandshake l → Action FramedConn (NoiseHandshake l)
  send_client_finish static payload server_eph nh0 = do
    let (enc_static, nh1) = encrypt l static.public nh0
    nh2 ← lift (
        wrapped "whatsapp: mix client static"
          (mix_shared_secret_into_key l static.priv server_eph nh1))
    let (enc_payload, nh3) = encrypt l payload nh2
    wrapping "whatsapp: send ClientFinish"
        (write_frame (marshal_client_finish enc_static enc_payload))
    pure nh3

  unfoldable pub client_handshake :
      Result Bytes
      → DhKeypair
      → Bytes
      → Option (Bytes → Bytes → Result (Unit {0}))
      → Action FramedConn (HandshakeResult l)
  client_handshake rand static payload verify = do
    (eph, nh1) ← send_client_hello rand
    (server_eph, peer, nh2) ← receive_server_hello verify eph nh1
    nh3 ← send_client_finish static payload server_eph nh2
    lift (client_keys l peer nh3)

  -- The ClientHello: the client's ephemeral key and the state.
  unfoldable pub receive_client_hello : Action FramedConn (Bytes × NoiseHandshake l)
  receive_client_hello = do
    nh ← lift (start l noise_start_pattern wa_conn_header)
    m ← wrapping "whatsapp: read ClientHello" read_frame
    eph ← lift (unmarshal_client_hello m)
    pure (eph, authenticate l eph nh)

  -- The ServerHello: the ephemeral pair and the state.
  unfoldable pub send_server_hello :
      Result Bytes
      → DhKeypair
      → Bytes
      → Bytes
      → NoiseHandshake l
      → Action FramedConn (DhKeypair × NoiseHandshake l)
  send_server_hello rand static payload client_eph nh0 = do
    eph ← lift (generate_keypair l rand)
    nh1 ← lift (
        wrapped "whatsapp: mix client ephemeral"
          (mix_shared_secret_into_key l eph.priv client_eph (authenticate l eph.public nh0)))
    let (enc_static, nh2) = encrypt l static.public nh1
    nh3 ← lift (
        wrapped "whatsapp: mix server static"
          (mix_shared_secret_into_key l static.priv client_eph nh2))
    let (enc_payload, nh4) = encrypt l payload nh3
    wrapping "whatsapp: send ServerHello"
        (write_frame (marshal_server_hello eph.public enc_static enc_payload))
    pure (eph, nh4)

  -- The ClientFinish: the client's static key and the state.
  unfoldable pub receive_client_finish :
      DhKeypair → NoiseHandshake l → Action FramedConn (Bytes × NoiseHandshake l)
  receive_client_finish eph nh0 = do
    m ← wrapping "whatsapp: read ClientFinish" read_frame
    (enc_static, payload) ← lift (unmarshal_client_finish m)
    (static, nh1) ← lift (wrapped "whatsapp: decrypt client static" (decrypt l enc_static nh0))
    guard (length static == 32) (text "whatsapp: client static length")
    nh2 ←
        lift
          (wrapped "whatsapp: mix client static" (mix_shared_secret_into_key l eph.priv static nh1))
    (_, nh3) ← lift (wrapped "whatsapp: decrypt client payload" (decrypt l (elements payload) nh2))
    pure (static, nh3)

  unfoldable pub server_handshake :
      Result Bytes → DhKeypair → Bytes → Action FramedConn (HandshakeResult l)
  server_handshake rand static payload = do
    (client_eph, nh1) ← receive_client_hello
    (eph, nh2) ← send_server_hello rand static payload client_eph nh1
    (peer, nh3) ← receive_client_finish eph nh2
    lift (server_keys l peer nh3)
