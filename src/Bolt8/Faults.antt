-- ===== src/Bolt8/Faults.antt =====
-- The error paths of pkg/transport/bolt8: tampered frames, foreign versions, early ends.
use noisecat.Base.{
  ℕ, ◌<◌, ◌++◌, ◌≡◌, ◌≢◌, refl, arith, false, [], ◌∷◌, Bytes, length, ◌==◌, Result, err, raise,
  after, Error, wrap, text, conn_closed, ◌>>=◌, wrapping, open_stream, close, read_full,
  read_full-append, write_all,
}
use noisecat.Bolt8.Primitives.{Library, decrypt_with_ad, encrypt_with_ad}
use noisecat.Bolt8.Handshake.{initiator_act2, responder_act1, responder_act3}
use noisecat.Bolt8.Conn.{
  Conn, handshake, read, read_message, write, write_loop, write_message, on_conn,
}
use noisecat.Bolt8.Transport.{IsDrained}

module _ (l : Library) where
  nonzero : (n : ℕ) → 0 < n → (n == 0) ≡ false
  nonzero n h = ground arith

  -- A length header whose MAC does not match makes Read fail and close the connection. From then on
  -- Read fails at once and changes nothing, and Write puts nothing more on the wire.
  pub read_tampered :
      (gen : Result l.PrivateKey) (room room' : ℕ) (r : Conn l) (lc rest o p : Bytes) (b : ℕ)
      (x : Error)
      → 0 < room
      → 0 < room'
      → IsDrained l r
      → length lc ≡ 18
      → decrypt_with_ad l r.rk r.rn [] lc ≡ err x
      → let dead = record r { conn = close (open_stream rest o) } in
        (read l gen room (record r { conn = open_stream (lc ++ rest) o })
          ≡ raise (wrap "bolt8: decrypt length" x) dead)
        × (read l gen room' dead ≡ raise conn_closed dead)
        × ((after (write l gen (b ∷ p) dead)).conn ≡ close (open_stream rest o))
  read_tampered gen room room' r lc rest o p b x pos pos' d size bad = (
    unfold read handshake read_message in
        simp
          (
            d.done,
            d.empty,
            nonzero room pos,
            ◌>>=◌,
            on_conn,
            read_full-append 18 lc rest o size,
            bad,
          )
          refl,
    unfold read handshake read_message read_full close in
        simp (d.done, d.empty, nonzero room' pos', ◌>>=◌) refl,
    unfold write handshake write_loop write_message encrypt_with_ad write_all close in
        simp (d.done, ◌>>=◌) refl,
  )

  -- Each of the three acts that are read is refused where its version byte is not 0, with all of its
  -- 50 or 66 bytes taken off the stream and nothing written.
  pub acts_version :
      (e s : l.PrivateKey) (h ck temp : Bytes) (v : ℕ) (body body3 rest o : Bytes)
      → v ≢ 0
      → length body ≡ 49
      → length body3 ≡ 65
      → (responder_act1 l s (open_stream (v ∷ (body ++ rest)) o)
          ≡ raise (text "bolt8: unsupported act 1 version") (open_stream rest o))
        × (initiator_act2 l e h ck (open_stream (v ∷ (body ++ rest)) o)
            ≡ raise (text "bolt8: unsupported act 2 version") (open_stream rest o))
        × (responder_act3 l e h ck temp (open_stream (v ∷ (body3 ++ rest)) o)
            ≡ raise (text "bolt8: unsupported act 3 version") (open_stream rest o))
  unfolding responder_act1 initiator_act2 responder_act3
  acts_version e s h ck temp v body body3 rest o nz size size3 = (
    simp (read_full-append 50 (v ∷ body) rest o (omega arith), ◌>>=◌, wrapping, differs) refl,
    simp (read_full-append 50 (v ∷ body) rest o (omega arith), ◌>>=◌, wrapping, differs) refl,
    simp (read_full-append 66 (v ∷ body3) rest o (omega arith), ◌>>=◌, wrapping, differs) refl,
  )
    where
      differs : (v == 0) ≡ false
      differs = ground arith
