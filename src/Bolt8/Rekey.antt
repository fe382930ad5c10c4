-- ===== src/Bolt8/Rekey.antt =====
-- The key schedule of pkg/transport/bolt8/conn.go.
use noisecat.Base.{
  ℕ, zero, suc, ◌+◌, ◌*◌, ◌/◌, ◌%◌, ◌++◌, ◌≡◌, refl, arith, [], ◌∷◌, List, Bytes, length, ret,
  Action, ◌>>=◌, ◌>>◌, pure, open_stream, inl, inr, Bool-cases, ltb, ltb→lt, ltb-false, append-nil,
  append_assoc,
}
use native.Mathlib.Nat.{add-zero, zero-add}
use noisecat.Bolt8.Primitives.{Library, hkdf_expand}
use noisecat.Bolt8.Conn.{Conn, maybe_rekey_send, write_message}
use noisecat.Bolt8.Transport.{advance_send, frame, write_message_lem}

module _ (l : Library) where
  -- Messages, one after the other.
  pub send_messages : List Bytes → Action (Conn l) (Unit {0})
  send_messages [] = pure tt
  send_messages (m ∷ ms) = do write_message l m; send_messages ms

  -- The chaining key and the key behind `n` rotations.
  pub rotated : ℕ → Bytes → Bytes → Bytes × Bytes
  rotated zero ck k = (ck, k)
  rotated (suc n) ck k = let (ck', k') = rotated n ck k in hkdf_expand l ck' k'

  -- The position behind `n` messages under fresh keys.
  abbrev At : Bytes × Bytes → ℕ → Conn l → Type 0
  At keys n c = (c.sck ≡ keys.0) × (c.sk ≡ keys.1) × (c.sn ≡ 2 * (n % 500))

  advance-At :
      (ck k : Bytes) (n : ℕ) (c : Conn l)
      → At (rotated (n / 500) ck k) n c
      → At (rotated ((n + 1) / 500) ck k) (n + 1) (advance_send l c)
  unfolding maybe_rekey_send
  advance-At ck k n c a = elim (Bool-cases (ltb (c.sn + 2) 1000)) [
    | inl within ↦
        let same : (n + 1) / 500 ≡ n / 500 = omega (arith, a.2, ltb→lt (c.sn + 2) 1000 within) in
        let step : c.sn + 2 ≡ 2 * ((n + 1) % 500) = omega (arith, a.2, same) in
        rw (same, within) (a.0, a.1, step)
    | inr over ↦
        let next : (n + 1) / 500 ≡ suc (n / 500) =
          omega (arith, a.2, ltb-false (c.sn + 2) 1000 over) in
        let back : 0 ≡ 2 * ((n + 1) % 500) = omega (arith, a.2, next) in
        rw (next, over) (unfold rotated in rw (a.0, a.1) (refl, refl, back))
  ]

  send_messages-At :
      (ck k : Bytes) (n : ℕ) (ms : List Bytes) (c : Conn l) (i o : Bytes)
      → At (rotated (n / 500) ck k) n c
      → (c' : Conn l) × (wire : Bytes) × (send_messages ms (record c { conn = open_stream i o })
          ≡ ret tt (record c' { conn = open_stream i (o ++ wire) }))
        × At (rotated ((n + length ms) / 500) ck k) (n + length ms) c'
  unfolding send_messages
  send_messages-At ck k n [] c i o a = (c, [], simp append-nil refl, rw (add-zero n) a)
  send_messages-At ck k n (m ∷ ms) c i o a =
      let (c', wire, sent, a') =
        send_messages-At ck k (n + 1) ms (advance_send l c) i (o ++ frame l c.sk c.sn m)
          (advance-At ck k n c a) in
      let count : n + 1 + length ms ≡ n + suc (length ms) = omega arith in
      (
        c',
        frame l c.sk c.sn m ++ wire,
        simp (write_message_lem l c m i o (omega (arith, a.2)), ◌>>=◌, sent, append_assoc) refl,
        rw count at a',
      )

  -- On an intact stream every message goes out. Behind `n` of them, sent from nonce 0 on, the sender
  -- has rotated its keys `n / 500` times, and its nonce is `2 * (n % 500)`.
  pub send_messages_schedule :
      (ms : List Bytes) (c : Conn l) (i o : Bytes)
      → c.sn ≡ 0
      → (c' : Conn l) × (wire : Bytes) × (send_messages ms (record c { conn = open_stream i o })
          ≡ ret tt (record c' { conn = open_stream i (o ++ wire) }))
        × (c'.sck ≡ (rotated (length ms / 500) c.sck c.sk).0)
        × (c'.sk ≡ (rotated (length ms / 500) c.sck c.sk).1)
        × (c'.sn ≡ 2 * (length ms % 500))
  send_messages_schedule ms c i o start =
      let (c', wire, sent, a) =
        send_messages-At c.sck c.sk 0 ms c i o (unfold rotated in (refl, refl, start)) in
      let a' = rw (zero-add (length ms)) at a in (c', wire, sent, a'.0, a'.1, a'.2)
