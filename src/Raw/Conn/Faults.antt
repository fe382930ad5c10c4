-- ===== src/Raw/Conn/Faults.antt =====
-- Where calls of conn.go fail.
use noisecat.Base.{
  ℕ, ◌<◌, ◌≤◌, ◌≡◌, refl, arith, Bool, false, not, ◌&&◌, Option, [], Bytes, length, leb, ltb, ◌==◌,
  raise, eof, ◌>>=◌, ◌>>◌, open_stream, read_full_short, short_read,
}
use noisecat.Flynn.{NoiseLibrary}
use noisecat.Raw.Conn.{client, on_conn, read, read_next, read_bytes, read_message16, handshake}
use noisecat.Raw.Conn.Established.{ready, two_way}

module _ (l : NoiseLibrary) where
  open l use {Config, HandshakeState, CipherState, messages}

  -- A read that wants more than the buffer holds, on a stream that has ended, reports the end of file
  -- and empties the buffer: the bytes that it held are not returned, by this read or a later one.
  pub read_drops_buffer :
      (client : Bool) (cfg : Config) (h : Option HandshakeState) (si so : CipherState)
      (o buf : Bytes) (size : ℕ)
      → 2 ≤ messages cfg
      → length buf < size
      → read l size (ready l (open_stream [] o) client cfg h si so buf)
        ≡ raise eof (ready l (open_stream [] o) client cfg h si so [])
  unfolding read handshake read_next read_message16 read_bytes short_read
  read_drops_buffer client cfg h si so o buf size both more =
      let positive : (size == 0) ≡ false = ground arith in
      let beyond : leb size (length buf) ≡ false = ground arith in
      let allowed : (not client && ltb (messages cfg) 2) ≡ false =
        two_way l client (messages cfg) both in
      simp
        (
          ◌>>=◌,
          ◌>>◌,
          positive,
          allowed,
          beyond,
          read_next,
          on_conn,
          read_message16,
          read_bytes,
          read_full_short 2 [] o (omega arith),
        )
        refl
