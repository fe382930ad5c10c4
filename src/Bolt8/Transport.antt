-- ===== src/Bolt8/Transport.antt =====
-- The frames of pkg/transport/bolt8/conn.go: writing, reading, and the keys of both directions.
use noisecat.Base.{
  ℕ, zero, suc, ◌+◌, ◌*◌, ◌/◌, ◌%◌, ◌^◌, ◌<◌, ◌≤◌, min, ◌++◌, ◌≡◌, refl, sym, arith, true, false,
  [], ◌∷◌, ◌==◌, Bytes, length, take, drop, Result, ret, Action, ◌>>=◌, pure, write_all, take_all,
  drop_all, take-append-drop, length-take, length-drop, open_stream, read_full-append, append_assoc,
  append-nil,
}
use native.Mathlib.Nat.{add-zero}
use noisecat.Bolt8.Primitives.{
  Library, IsSound, encrypt_with_ad, nonce_le, decrypt-seal, max_message_len,
}
use noisecat.Bolt8.Conn.{
  deliver, Conn, deliver, on_conn, inc64, maybe_rekey_send, maybe_rekey_recv, write_message,
  write_loop, read_message, read, handshake,
}

module _ (l : Library) where
  -- Between messages a direction's nonce is even and below the rekey interval.
  abbrev pub IsFresh : ℕ → Type 0
  IsFresh n = (n % 2 ≡ 0) × (n < 1000)

  -- The sender's keys are the receiver's.
  pub record IsSynced (c r : Conn l) : Type 0 where
    pub key : r.rk ≡ c.sk
    pub chain : r.rck ≡ c.sck
    pub nonce : r.rn ≡ c.sn
    pub fresh : IsFresh c.sn

  -- A receiver that has handed out all it read.
  pub record IsDrained (r : Conn l) : Type 0 where
    pub done : r.handshake_done ≡ true
    pub empty : r.read_buf ≡ []

  -- A direction behind one message.
  abbrev pub advance_send : Conn l → Conn l
  advance_send c = maybe_rekey_send l (record c { sn = c.sn + 2 })

  abbrev advance_recv : Conn l → Conn l
  advance_recv c = maybe_rekey_recv l (record c { rn = c.rn + 2 })

  rekey_send-conn :
      (c : Conn l) (n : ℕ) (i o : Bytes)
      → maybe_rekey_send l (record c { sn = n; conn = open_stream i o })
        ≡ record (maybe_rekey_send l (record c { sn = n })) { conn = open_stream i o }
  unfolding maybe_rekey_send
  rekey_send-conn c n i o = ground arith

  rekey_recv-conn :
      (c : Conn l) (n : ℕ) (i o : Bytes)
      → maybe_rekey_recv l (record c { rn = n; conn = open_stream i o })
        ≡ record (maybe_rekey_recv l (record c { rn = n })) { conn = open_stream i o }
  unfolding maybe_rekey_recv
  rekey_recv-conn c n i o = ground arith

  -- What a message becomes on the wire, under a key from a nonce on.
  abbrev pub header : Bytes → Bytes
  header m = (length m % 2 ^ 16 / 256 % 256) ∷ (length m % 2 ^ 16 % 256) ∷ []

  abbrev pub frame : Bytes → ℕ → Bytes → Bytes
  frame k n m = l.seal k (nonce_le n) (header m) [] ++ l.seal k (nonce_le (n + 1)) m []

  inc64_small : (n : ℕ) → n < 2 ^ 63 → inc64 n ≡ n + 1
  inc64_small n h = omega arith

  inc64_twice : (n : ℕ) → n < 2 ^ 63 → inc64 (n + 1) ≡ n + 2
  inc64_twice n h = omega arith

  pub write_message_lem :
      (c : Conn l) (m i o : Bytes)
      → IsFresh c.sn
      → write_message l m (record c { conn = open_stream i o })
        ≡ ret tt (record (advance_send c) { conn = open_stream i (o ++ frame c.sk c.sn m) })
  unfolding write_message encrypt_with_ad write_all
  write_message_lem c m i o (even, low) =
      simp
        (
          inc64_small c.sn (omega arith),
          inc64_twice c.sn (omega arith),
          rekey_send-conn c (c.sn + 2) i (o ++ frame c.sk c.sn m),
        )
        refl

  module _ (sound : IsSound l) where
    open sound use {length-seal}

    read_message_lem :
        (r : Conn l) (m rest o : Bytes)
        → IsFresh r.rn
        → length m < 65536
        → read_message l (record r { conn = open_stream (frame r.rk r.rn m ++ rest) o })
          ≡ ret m (record (advance_recv r) { conn = open_stream rest o })
    unfolding read_message
    read_message_lem r m rest o (even, low) bound =
        simp
          (
            append_assoc lc pc rest,
            read_full-append 18 lc (pc ++ rest) o (length-seal _ _ _ _),
            ◌>>=◌,
            on_conn,
            decrypt-seal l sound r.rk r.rn [] (header m),
            inc64_small r.rn (omega arith),
            body_size,
            read_full-append (length pc) pc rest o refl,
            decrypt-seal l sound r.rk (r.rn + 1) [] m,
            inc64_twice r.rn (omega arith),
            rekey_recv-conn r (r.rn + 2) rest o,
          )
          refl
      where
        lc : Bytes
        lc = l.seal r.rk (nonce_le r.rn) (header m) []

        pc : Bytes
        pc = l.seal r.rk (nonce_le (r.rn + 1)) m []

        body_size : length m % 2 ^ 16 / 256 % 256 * 256 + length m % 2 ^ 16 % 256 + 16 ≡ length pc
        body_size = omega (arith, length-seal r.rk (nonce_le (r.rn + 1)) m [])

  pub advance_send-IsFresh : (c : Conn l) → IsFresh c.sn → IsFresh (advance_send c).sn
  unfolding maybe_rekey_send
  advance_send-IsFresh c h = ground arith

  advance-IsSynced : (c r : Conn l) → IsSynced c r → IsSynced (advance_send c) (advance_recv r)
  unfolding maybe_rekey_send maybe_rekey_recv
  advance-IsSynced c r y = ground arith

  advance-IsDrained : (r : Conn l) → IsDrained r → IsDrained (advance_recv r)
  unfolding maybe_rekey_recv
  advance-IsDrained r d = ground arith

  rekey_recv-read_buf : (r : Conn l) → (maybe_rekey_recv l r).read_buf ≡ r.read_buf
  unfolding maybe_rekey_recv
  rekey_recv-read_buf r = ground arith

  -- `k` calls of Read into a buffer of `room` bytes, put together.
  pub read_times : Result l.PrivateKey → ℕ → ℕ → Action (Conn l) Bytes
  read_times gen room zero = pure []
  read_times gen room (suc k) = do a ← read l gen room; b ← read_times gen room k; pure (a ++ b)

  module _ (sound : IsSound l) where
    read_lem :
        (gen : Result l.PrivateKey) (room : ℕ) (r : Conn l) (m rest o : Bytes)
        → IsFresh r.rn
        → IsDrained r
        → length m < 65536
        → length m ≤ room
        → 0 < room
        → read l gen room (record r { conn = open_stream (frame r.rk r.rn m ++ rest) o })
          ≡ ret m (record (advance_recv r) { conn = open_stream rest o })
    unfolding read handshake deliver
    read_lem gen room r m rest o fresh d bound fits room_pos =
        simp
          (
            d.done,
            d.empty,
            ◌>>=◌,
            nonzero,
            read_message_lem sound ready m rest o fresh bound,
            rekey_recv-read_buf (record ready { rn = r.rn + 2 }),
            take_all room m fits,
            drop_all room m fits,
          )
          refl
      where
        nonzero : (room == 0) ≡ false
        nonzero = ground arith

        ready : Conn l
        ready = record r { handshake_done = true; read_buf = [] }

    read_synced :
        (gen : Result l.PrivateKey) (c r : Conn l) (m rest o : Bytes)
        → IsSynced c r
        → IsDrained r
        → length m ≤ max_message_len
        → read l gen max_message_len (record r { conn = open_stream (frame c.sk c.sn m ++ rest) o })
          ≡ ret m (record (advance_recv r) { conn = open_stream rest o })
    read_synced gen c r m rest o y d fits =
        rw (sym y.key, sym y.nonce)
          (read_lem gen max_message_len r m rest o (omega arith) d (omega arith) fits (omega arith))

    -- What the rounds of the write loop send, the reads of a synced receiver return.
    pub write_loop_lem :
        (gen : Result l.PrivateKey) (fuel total : ℕ) (p : Bytes) (c : Conn l) (i o : Bytes)
        → length p ≤ fuel
        → IsFresh c.sn
        → (wire : Bytes) × (k : ℕ) × (c' : Conn l) × (write_loop l fuel total p
              (record c { conn = open_stream i o })
            ≡ ret (total + length p) (record c' { conn = open_stream i (o ++ wire) }))
          × ((r : Conn l) (rest o' : Bytes)
              → IsSynced c r
              → IsDrained r
              → (r' : Conn l) × (read_times gen max_message_len k
                    (record r { conn = open_stream (wire ++ rest) o' })
                  ≡ ret p (record r' { conn = open_stream rest o' }))
                × IsSynced c' r'
                × IsDrained r')
    unfolding write_loop read_times
    write_loop_lem gen fuel total [] c i o enough fresh =
        ([], 0, c, simp (append-nil, add-zero) refl, λ r rest o' y d. (r, refl, y, d))
    write_loop_lem gen zero total (b ∷ q) c i o enough fresh = absurd (omega arith)
    write_loop_lem gen (suc fuel) total (b ∷ q) c i o enough fresh =
        let n = min (length (b ∷ q)) max_message_len in
        let m = take n (b ∷ q) in
        let (wire, k, c', wrote, reads) =
          write_loop_lem gen fuel (total + n) (drop n (b ∷ q)) (advance_send c) i
            (o ++ frame c.sk c.sn m) (omega (arith, length-drop n (b ∷ q)))
            (advance_send-IsFresh c fresh) in
        let sizes : total + n + length (drop n (b ∷ q)) ≡ total + length (b ∷ q) =
          omega (arith, length-drop n (b ∷ q)) in
        (
          frame c.sk c.sn m ++ wire,
          suc k,
          c',
          simp (write_message_lem c m i o fresh, ◌>>=◌, wrote, sizes, append_assoc) refl,
          λ r rest o' y d.
              let (r', got, y', d') =
                reads (advance_recv r) rest o' (advance-IsSynced c r y) (advance-IsDrained r d) in
              (
                r',
                simp
                    (
                      append_assoc (frame c.sk c.sn m) wire rest,
                      read_synced gen c r m (wire ++ rest) o' y d
                          (omega (arith, length-take n (b ∷ q))),
                      ◌>>=◌,
                      got,
                      take-append-drop n (b ∷ q),
                    )
                    refl,
                y',
                d',
              ),
        )
