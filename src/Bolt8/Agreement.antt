-- ===== src/Bolt8/Agreement.antt =====
-- The two sides of pkg/transport/bolt8/handshake.go against one another, act by act.
use noisecat.Base.{
  ◌++◌, ◌≡◌, refl, arith, [], ◌∷◌, Bytes, Option, true, length, Result, ok, ret, ◌>>=◌, wrapping,
  length-append, take-append, drop-append, take_all, open_stream, read_full-append, write_all,
}
use noisecat.Bolt8.Primitives.{
  Library, IsSound, mix_hash, hkdf_expand, ecdh, encrypt_with_ad, initial_state, decrypt-seal,
  ecdh_comm, nonce_le,
}
use noisecat.Bolt8.Handshake.{
  choose_ephemeral, local_static_pub, initiator_act1, initiator_act2, initiator_act3, run_initiator,
  responder_act1, responder_act2, responder_act3, run_responder,
}

module _ (l : Library) (sound : IsSound l) where
  open l use {PrivateKey, PublicKey, pub_key, serialize_compressed, seal}
  open sound use {length-seal, parse-serialize, length-serialize}

  -- What act 1 writes, and what either side holds behind it.
  act1_agree :
      (gen : Result PrivateKey) (s e : PrivateKey) (eph : Option PrivateKey)
      → choose_ephemeral l gen eph ≡ ok e
      → (m h ck : Bytes) × (length m ≡ 50)
        × ((i o : Bytes)
            → initiator_act1 l gen (pub_key s) eph (open_stream i o)
              ≡ ret (e, h, ck) (open_stream i (o ++ m)))
        × ((rest o : Bytes)
            → responder_act1 l s (open_stream (m ++ rest) o)
              ≡ ret (pub_key e, h, ck) (open_stream rest o))
  act1_agree gen s e eph chosen = (0 ∷ (e_pub ++ c), mix_hash l h1 c, k.0, size, writes, reads)
    where
      e_pub : Bytes
      e_pub = serialize_compressed (pub_key e)

      start : Bytes × Bytes
      start = initial_state l [] (serialize_compressed (pub_key s)) true

      h1 : Bytes
      h1 = mix_hash l start.0 e_pub

      k : Bytes × Bytes
      k = hkdf_expand l start.1 (ecdh l e (pub_key s))

      c : Bytes
      c = seal k.1 (nonce_le 0) [] h1

      size : length (0 ∷ (e_pub ++ c)) ≡ 50
      size = omega (
        arith,
        length-append e_pub c,
        length-serialize (pub_key e),
        length-seal k.1 (nonce_le 0) [] h1,
      )

      writes :
          (i o : Bytes)
          → initiator_act1 l gen (pub_key s) eph (open_stream i o)
            ≡ ret (e, mix_hash l h1 c, k.0) (open_stream i (o ++ (0 ∷ (e_pub ++ c))))
      writes i o = unfold initiator_act1 encrypt_with_ad write_all in rw chosen refl

      reads :
          (rest o : Bytes)
          → responder_act1 l s (open_stream ((0 ∷ (e_pub ++ c)) ++ rest) o)
            ≡ ret (pub_key e, mix_hash l h1 c, k.0) (open_stream rest o)
      reads rest o =
          unfold responder_act1 initial_state local_static_pub in
          simp
            (
              read_full-append 50 (0 ∷ (e_pub ++ c)) rest o size,
              ◌>>=◌,
              wrapping,
              take-append 33 e_pub c (length-serialize (pub_key e)),
              drop-append 33 e_pub c (length-serialize (pub_key e)),
              take_all 16 c (omega (arith, length-seal k.1 (nonce_le 0) [] h1)),
              parse-serialize (pub_key e),
              ecdh_comm l sound s e,
              decrypt-seal l sound k.1 0 h1 [],
            )
            refl

  -- Act 2, from the responder to the initiator with the ephemeral key `e`.
  act2_agree :
      (gen : Result PrivateKey) (e f : PrivateKey) (eph : Option PrivateKey) (h0 ck0 : Bytes)
      → choose_ephemeral l gen eph ≡ ok f
      → (m h ck temp : Bytes) × (length m ≡ 50)
        × ((i o : Bytes)
            → responder_act2 l gen eph (pub_key e) h0 ck0 (open_stream i o)
              ≡ ret (f, h, ck, temp) (open_stream i (o ++ m)))
        × ((rest o : Bytes)
            → initiator_act2 l e h0 ck0 (open_stream (m ++ rest) o)
              ≡ ret (pub_key f, h, ck, temp) (open_stream rest o))
  act2_agree gen e f eph h0 ck0 chosen =
      (0 ∷ (f_pub ++ c), mix_hash l h1 c, k.0, k.1, size, writes, reads)
    where
      f_pub : Bytes
      f_pub = serialize_compressed (pub_key f)

      h1 : Bytes
      h1 = mix_hash l h0 f_pub

      k : Bytes × Bytes
      k = hkdf_expand l ck0 (ecdh l f (pub_key e))

      c : Bytes
      c = seal k.1 (nonce_le 0) [] h1

      size : length (0 ∷ (f_pub ++ c)) ≡ 50
      size = omega (
        arith,
        length-append f_pub c,
        length-serialize (pub_key f),
        length-seal k.1 (nonce_le 0) [] h1,
      )

      writes :
          (i o : Bytes)
          → responder_act2 l gen eph (pub_key e) h0 ck0 (open_stream i o)
            ≡ ret (f, mix_hash l h1 c, k.0, k.1) (open_stream i (o ++ (0 ∷ (f_pub ++ c))))
      writes i o = unfold responder_act2 encrypt_with_ad write_all in rw chosen refl

      reads :
          (rest o : Bytes)
          → initiator_act2 l e h0 ck0 (open_stream ((0 ∷ (f_pub ++ c)) ++ rest) o)
            ≡ ret (pub_key f, mix_hash l h1 c, k.0, k.1) (open_stream rest o)
      reads rest o =
          unfold initiator_act2 in
          simp
            (
              read_full-append 50 (0 ∷ (f_pub ++ c)) rest o size,
              ◌>>=◌,
              wrapping,
              take-append 33 f_pub c (length-serialize (pub_key f)),
              drop-append 33 f_pub c (length-serialize (pub_key f)),
              take_all 16 c (omega (arith, length-seal k.1 (nonce_le 0) [] h1)),
              parse-serialize (pub_key f),
              ecdh_comm l sound e f,
              decrypt-seal l sound k.1 0 h1 [],
            )
            refl

  -- Act 3, from the initiator with the static key `s` to the responder with the ephemeral key `f`.
  act3_agree :
      (s f : PrivateKey) (h0 ck0 temp : Bytes)
      → (m h ck : Bytes) × (length m ≡ 66)
        × ((i o : Bytes)
            → initiator_act3 l s (pub_key f) h0 ck0 temp (open_stream i o)
              ≡ ret (ck, h) (open_stream i (o ++ m)))
        × ((rest o : Bytes)
            → responder_act3 l f h0 ck0 temp (open_stream (m ++ rest) o)
              ≡ ret (ck, h, pub_key s) (open_stream rest o))
  act3_agree s f h0 ck0 temp = (0 ∷ (c ++ tag), h1, k.0, size, writes, reads)
    where
      s_pub : Bytes
      s_pub = serialize_compressed (pub_key s)

      c : Bytes
      c = seal temp (nonce_le 1) s_pub h0

      h1 : Bytes
      h1 = mix_hash l h0 c

      k : Bytes × Bytes
      k = hkdf_expand l ck0 (ecdh l s (pub_key f))

      tag : Bytes
      tag = seal k.1 (nonce_le 0) [] h1

      length-c : length c ≡ 49
      length-c = omega (arith, length-seal temp (nonce_le 1) s_pub h0, length-serialize (pub_key s))

      size : length (0 ∷ (c ++ tag)) ≡ 66
      size = omega (arith, length-append c tag, length-c, length-seal k.1 (nonce_le 0) [] h1)

      writes :
          (i o : Bytes)
          → initiator_act3 l s (pub_key f) h0 ck0 temp (open_stream i o)
            ≡ ret (k.0, h1) (open_stream i (o ++ (0 ∷ (c ++ tag))))
      writes i o = unfold initiator_act3 encrypt_with_ad write_all local_static_pub in refl

      reads :
          (rest o : Bytes)
          → responder_act3 l f h0 ck0 temp (open_stream ((0 ∷ (c ++ tag)) ++ rest) o)
            ≡ ret (k.0, h1, pub_key s) (open_stream rest o)
      reads rest o =
          unfold responder_act3 in
          simp
            (
              read_full-append 66 (0 ∷ (c ++ tag)) rest o size,
              ◌>>=◌,
              wrapping,
              take-append 49 c tag length-c,
              drop-append 49 c tag length-c,
              take_all 16 tag (omega (arith, length-seal k.1 (nonce_le 0) [] h1)),
              decrypt-seal l sound temp 1 h0 s_pub,
              length-serialize (pub_key s),
              parse-serialize (pub_key s),
              ecdh_comm l sound f s,
              decrypt-seal l sound k.1 0 h1 [],
            )
            refl

  -- Over a stream that loses nothing the two sides complete the handshake, whatever follows it on
  -- the wire: the initiator writes acts of 50 and 66 bytes, the responder one of 50, both arrive at
  -- the same chaining key and handshake hash, and the responder learns the initiator's static key.
  pub handshake_agree :
      (gen gen' : Result PrivateKey) (s s' e f : PrivateKey) (eph eph' : Option PrivateKey)
      → choose_ephemeral l gen eph ≡ ok e
      → choose_ephemeral l gen' eph' ≡ ok f
      → (act1 act2 act3 ck h : Bytes) × (length act1 ≡ 50)
        × (length act2 ≡ 50)
        × (length act3 ≡ 66)
        × ((rest o : Bytes)
            → run_initiator l gen s (pub_key s') eph (open_stream (act2 ++ rest) o)
              ≡ ret (ck, h) (open_stream rest ((o ++ act1) ++ act3)))
        × ((rest o : Bytes)
            → run_responder l gen' s' eph' (open_stream (act1 ++ (act3 ++ rest)) o)
              ≡ ret (ck, h, pub_key s) (open_stream rest (o ++ act2)))
  handshake_agree gen gen' s s' e f eph eph' chosen chosen' =
      let (m1, h1, ck1, n1, w1, r1) = act1_agree gen s' e eph chosen in
      let (m2, h2, ck2, temp, n2, w2, r2) = act2_agree gen' e f eph' h1 ck1 chosen' in
      let (m3, h3, ck3, n3, w3, r3) = act3_agree s f h2 ck2 temp in
      (
        m1,
        m2,
        m3,
        ck3,
        h3,
        n1,
        n2,
        n3,
        λ rest o.
            unfold run_initiator in
            simp (w1 (m2 ++ rest) o, ◌>>=◌, r2 rest (o ++ m1), w3 rest (o ++ m1)) refl,
        λ rest o.
            unfold run_responder in
            simp (r1 (m3 ++ rest) o, ◌>>=◌, w2 (m3 ++ rest) o, r3 rest (o ++ m2)) refl,
      )
