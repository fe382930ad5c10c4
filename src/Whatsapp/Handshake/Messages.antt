-- ===== src/Whatsapp/Handshake/Messages.antt =====
-- Each message of pkg/transport/whatsapp/handshake.go: what one side sends the other side receives, and
-- both are left with the same hash, key and counter.
use noisecat.Base.{
  ◌+◌, ◌^◌, ◌<◌, ◌≤◌, ◌++◌, ◌≡◌, refl, arith, Bool, false, none, Bytes, length, Result, ok, ret,
  ◌>>=◌, wrapping,
}
use noisecat.Whatsapp.Framing.{max_frame_len}
use noisecat.Whatsapp.Framing.Frames.{framed, wire_frame, write_frame_lem, read_frame_lem}
use noisecat.Whatsapp.Proto.{marshal_client_hello, marshal_server_hello, marshal_client_finish}
use noisecat.Whatsapp.Proto.RoundTrip.{
  client_hello_lem, client_finish_lem, server_hello_lem, length-marshal_client_hello,
  length-marshal_client_finish, length-marshal_server_hello,
}
use noisecat.Whatsapp.Noise.{
  Library, IsSound, IsPair, DhKeypair, NoiseHandshake, generate_keypair, authenticate, encrypt,
  mix_shared_secret_into_key,
}
use noisecat.Whatsapp.Noise.Steps.{start_ok, mix_agree, decrypt-encrypt, length-encrypt}
use noisecat.Whatsapp.Handshake.{
  send_client_hello, receive_server_hello, send_client_finish, receive_client_hello,
  send_server_hello, receive_client_finish,
}

module _ (l : Library) (sound : IsSound l) where
  pub hello_agree :
      (rand : Result Bytes) (e : DhKeypair)
      → generate_keypair l rand ≡ ok e
      → length e.public ≡ 32
      → (m : Bytes) × (nh : NoiseHandshake l) × ((i o : Bytes) (w r : Bool)
          → send_client_hello l rand (framed i o w r)
            ≡ ret (e, nh) (framed i (o ++ wire_frame w m) false r))
        × ((rest o : Bytes) (w r : Bool)
            → receive_client_hello l (framed (wire_frame r m ++ rest) o w r)
              ≡ ret (e.public, nh) (framed rest o w false))
  hello_agree rand e made size = (m, authenticate l e.public nh, sends, receives)
    where
      nh : NoiseHandshake l
      nh = (start_ok l sound).0

      m : Bytes
      m = marshal_client_hello e.public

      short : length m ≤ max_frame_len
      short = omega (arith, length-marshal_client_hello e.public)

      sends :
          (i o : Bytes) (w r : Bool)
          → send_client_hello l rand (framed i o w r)
            ≡ ret (e, authenticate l e.public nh) (framed i (o ++ wire_frame w m) false r)
      sends i o w r =
          unfold send_client_hello in
          simp ((start_ok l sound).1, ◌>>=◌, made, wrapping, write_frame_lem m i o w r short) refl

      receives :
          (rest o : Bytes) (w r : Bool)
          → receive_client_hello l (framed (wire_frame r m ++ rest) o w r)
            ≡ ret (e.public, authenticate l e.public nh) (framed rest o w false)
      receives rest o w r =
          unfold receive_client_hello in
          simp
            (
              (start_ok l sound).1,
              ◌>>=◌,
              wrapping,
              read_frame_lem m rest o w r short,
              client_hello_lem e.public size,
            )
            refl

  pub server_hello_agree :
      (rand : Result Bytes) (e f s : DhKeypair) (payload : Bytes) (nh0 : NoiseHandshake l)
      → generate_keypair l rand ≡ ok f
      → IsPair l e
      → IsPair l f
      → IsPair l s
      → length payload < 2 ^ 23
      → (m : Bytes) × (nh : NoiseHandshake l) × ((i o : Bytes) (w r : Bool)
          → send_server_hello l rand s payload e.public nh0 (framed i o w r)
            ≡ ret (f, nh) (framed i (o ++ wire_frame w m) false r))
        × ((rest o : Bytes) (w r : Bool)
            → receive_server_hello l none e nh0 (framed (wire_frame r m ++ rest) o w r)
              ≡ ret (f.public, s.public, nh) (framed rest o w false))
  server_hello_agree rand e f s payload nh0 made pe pf ps few = (m, enc_payload.1, sends, receives)
    where
      mixed :
          (nh : NoiseHandshake l) × (mix_shared_secret_into_key l e.priv f.public
              (authenticate l f.public nh0)
            ≡ ok nh)
          × (mix_shared_secret_into_key l f.priv e.public (authenticate l f.public nh0) ≡ ok nh)
      mixed = mix_agree l sound e f (authenticate l f.public nh0) pe pf

      enc_static : Bytes × NoiseHandshake l
      enc_static = encrypt l s.public mixed.0

      mixed' :
          (nh : NoiseHandshake l) × (mix_shared_secret_into_key l e.priv s.public enc_static.1
            ≡ ok nh)
          × (mix_shared_secret_into_key l s.priv e.public enc_static.1 ≡ ok nh)
      mixed' = mix_agree l sound e s enc_static.1 pe ps

      enc_payload : Bytes × NoiseHandshake l
      enc_payload = encrypt l payload mixed'.0

      m : Bytes
      m = marshal_server_hello f.public enc_static.0 enc_payload.0

      static_size : length enc_static.0 ≡ 48
      static_size = omega (arith, length-encrypt l sound s.public mixed.0, ps.1)

      payload_size : length enc_payload.0 ≡ length payload + 16
      payload_size = length-encrypt l sound payload mixed'.0

      short : length m ≤ max_frame_len
      short = omega (
        arith,
        length-marshal_server_hello f.public enc_static.0 enc_payload.0,
        static_size,
        payload_size,
        pf.1,
      )

      sends :
          (i o : Bytes) (w r : Bool)
          → send_server_hello l rand s payload e.public nh0 (framed i o w r)
            ≡ ret (f, enc_payload.1) (framed i (o ++ wire_frame w m) false r)
      sends i o w r =
          unfold send_server_hello in
          simp (made, ◌>>=◌, mixed.2, mixed'.2, wrapping, write_frame_lem m i o w r short) refl

      receives :
          (rest o : Bytes) (w r : Bool)
          → receive_server_hello l none e nh0 (framed (wire_frame r m ++ rest) o w r)
            ≡ ret (f.public, s.public, enc_payload.1) (framed rest o w false)
      receives rest o w r =
          unfold receive_server_hello in
          simp
            (
              wrapping,
              read_frame_lem m rest o w r short,
              ◌>>=◌,
              server_hello_lem f.public enc_static.0 enc_payload.0 pf.1 (omega (arith, static_size))
                  (omega (arith, payload_size)),
              mixed.1,
              decrypt-encrypt l sound s.public mixed.0,
              ps.1,
              mixed'.1,
              decrypt-encrypt l sound payload mixed'.0,
            )
            refl

  pub client_finish_agree :
      (f s : DhKeypair) (payload : Bytes) (nh0 : NoiseHandshake l)
      → IsPair l f
      → IsPair l s
      → length payload < 2 ^ 23
      → (m : Bytes) × (nh : NoiseHandshake l) × ((i o : Bytes) (w r : Bool)
          → send_client_finish l s payload f.public nh0 (framed i o w r)
            ≡ ret nh (framed i (o ++ wire_frame w m) false r))
        × ((rest o : Bytes) (w r : Bool)
            → receive_client_finish l f nh0 (framed (wire_frame r m ++ rest) o w r)
              ≡ ret (s.public, nh) (framed rest o w false))
  client_finish_agree f s payload nh0 pf ps few = (m, enc_payload.1, sends, receives)
    where
      enc_static : Bytes × NoiseHandshake l
      enc_static = encrypt l s.public nh0

      mixed :
          (nh : NoiseHandshake l) × (mix_shared_secret_into_key l f.priv s.public enc_static.1
            ≡ ok nh)
          × (mix_shared_secret_into_key l s.priv f.public enc_static.1 ≡ ok nh)
      mixed = mix_agree l sound f s enc_static.1 pf ps

      enc_payload : Bytes × NoiseHandshake l
      enc_payload = encrypt l payload mixed.0

      m : Bytes
      m = marshal_client_finish enc_static.0 enc_payload.0

      static_size : length enc_static.0 ≡ 48
      static_size = omega (arith, length-encrypt l sound s.public nh0, ps.1)

      payload_size : length enc_payload.0 ≡ length payload + 16
      payload_size = length-encrypt l sound payload mixed.0

      short : length m ≤ max_frame_len
      short = omega (
        arith,
        length-marshal_client_finish enc_static.0 enc_payload.0,
        static_size,
        payload_size,
      )

      sends :
          (i o : Bytes) (w r : Bool)
          → send_client_finish l s payload f.public nh0 (framed i o w r)
            ≡ ret enc_payload.1 (framed i (o ++ wire_frame w m) false r)
      sends i o w r =
          unfold send_client_finish in
          simp (mixed.2, ◌>>=◌, wrapping, write_frame_lem m i o w r short) refl

      receives :
          (rest o : Bytes) (w r : Bool)
          → receive_client_finish l f nh0 (framed (wire_frame r m ++ rest) o w r)
            ≡ ret (s.public, enc_payload.1) (framed rest o w false)
      receives rest o w r =
          unfold receive_client_finish in
          simp
            (
              wrapping,
              read_frame_lem m rest o w r short,
              ◌>>=◌,
              client_finish_lem enc_static.0 enc_payload.0 (omega (arith, static_size))
                  (omega (arith, payload_size)),
              decrypt-encrypt l sound s.public nh0,
              ps.1,
              mixed.1,
              decrypt-encrypt l sound payload mixed.0,
            )
            refl
