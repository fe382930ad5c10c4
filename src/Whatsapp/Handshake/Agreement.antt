-- ===== src/Whatsapp/Handshake/Agreement.antt =====
-- The two sides of pkg/transport/whatsapp/handshake.go against one another.
use noisecat.Base.{
  ◌^◌, ◌<◌, ◌++◌, ◌≡◌, refl, Bool, false, none, Bytes, length, Result, ok, ret, ◌>>=◌,
}
use noisecat.Whatsapp.Framing.Frames.{framed, wire_frame}
use noisecat.Whatsapp.Noise.{Library, IsSound, IsPair, DhKeypair, generate_keypair}
use noisecat.Whatsapp.Noise.Steps.{keys_mirrored}
use noisecat.Whatsapp.Handshake.{client_handshake, server_handshake}
use noisecat.Whatsapp.Handshake.Messages.{hello_agree, server_hello_agree, client_finish_agree}

module _ (l : Library) (sound : IsSound l) where
  -- Over a stream that loses nothing the two sides of a peer-to-peer handshake complete it, whatever
  -- follows it on the wire, for honest key pairs and payloads below 8 MB: each learns the other's
  -- static key, and each writes under the key with which the other reads.
  pub handshake_mirrored :
      (rand rand' : Result Bytes) (e f s s' : DhKeypair) (payload payload' : Bytes)
      → generate_keypair l rand ≡ ok e
      → generate_keypair l rand' ≡ ok f
      → IsPair l e
      → IsPair l f
      → IsPair l s
      → IsPair l s'
      → length payload < 2 ^ 23
      → length payload' < 2 ^ 23
      → (m1 m2 m3 : Bytes) × (c d : l.Aead) × ((rest o : Bytes) (w r : Bool)
          → client_handshake l rand s payload none (framed (wire_frame r m2 ++ rest) o w r)
            ≡ ret
                (record { write_key = c; read_key = d; peer_static = s'.public })
                (framed rest ((o ++ wire_frame w m1) ++ wire_frame false m3) false false))
        × ((rest o : Bytes) (w r : Bool)
            → server_handshake l rand' s' payload'
                (framed (wire_frame w m1 ++ (wire_frame false m3 ++ rest)) o r w)
              ≡ ret
                  (record { write_key = d; read_key = c; peer_static = s.public })
                  (framed rest (o ++ wire_frame r m2) false false))
  handshake_mirrored rand rand' e f s s' payload payload' made made' pe pf ps ps' few few' =
      let (m1, h1, w1, r1) = hello_agree l sound rand e made pe.1 in
      let (m2, h2, w2, r2) =
        server_hello_agree l sound rand' e f s' payload' h1 made' pe pf ps' few' in
      let (m3, h3, w3, r3) = client_finish_agree l sound f s payload h2 pf ps few in
      let (c, d, kc, ks) = keys_mirrored l sound s.public s'.public h3 in
      (
        m1,
        m2,
        m3,
        c,
        d,
        λ rest o w r.
            unfold client_handshake in
            simp
              (
                w1 (wire_frame r m2 ++ rest) o w r,
                ◌>>=◌,
                r2 rest (o ++ wire_frame w m1) false r,
                w3 rest (o ++ wire_frame w m1) false false,
                kc,
              )
              refl,
        λ rest o w r.
            unfold server_handshake in
            simp
              (
                r1 (wire_frame false m3 ++ rest) o r w,
                ◌>>=◌,
                w2 (wire_frame false m3 ++ rest) o r false,
                r3 rest (o ++ wire_frame r m2) false false,
                ks,
              )
              refl,
      )
