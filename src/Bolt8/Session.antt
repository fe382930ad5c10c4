-- ===== src/Bolt8/Session.antt =====
-- A BOLT-8 session from end to end: pkg/transport/bolt8/conn.go over the handshake.
use noisecat.Base.{
  ℕ, ◌++◌, ◌≡◌, refl, true, some, none, arith, Bytes, length, Result, ok, ret, ◌>>=◌, open_stream,
}
use native.Mathlib.Nat.{zero-add}
use noisecat.Bolt8.Primitives.{Library, IsSound, max_message_len}
use noisecat.Bolt8.Handshake.{choose_ephemeral, run_initiator, run_responder}
use noisecat.Bolt8.Agreement.{handshake_agree}
use noisecat.Bolt8.Conn.{
  Conn, client, server, handshake, initiator_handshake, responder_handshake, split_keys,
  fingerprint, write, on_conn,
}
use noisecat.Bolt8.Transport.{IsSynced, IsDrained, read_times, write_loop_lem}

module _ (l : Library) where
  open l use {PrivateKey, PublicKey, pub_key}

  -- Between the client with the static key `s` and the server with `s'`, whose ephemeral keys are
  -- `e` and `f`, the handshake ends well on both sides and leaves them in step.
  abbrev pub Establishes : PrivateKey → PrivateKey → PrivateKey → PrivateKey → Type 0
  Establishes s s' e f =
      (act1 act2 act3 : Bytes) × ((rest rest' o o' : Bytes)
        → (c d : Conn l) × (handshake l (ok e)
              (client l (open_stream (act2 ++ rest) o) s (pub_key s'))
            ≡ ret tt c)
          × (handshake l (ok f) (server l (open_stream (act1 ++ (act3 ++ rest')) o') s') ≡ ret tt d)
          × (c.conn ≡ open_stream rest ((o ++ act1) ++ act3))
          × (d.conn ≡ open_stream rest' (o' ++ act2))
          × IsSynced l c d
          × IsSynced l d c
          × IsDrained l c
          × IsDrained l d
          × (fingerprint l c ≡ fingerprint l d)
          × (d.remote_static ≡ some (pub_key s)))

  -- Write of `p` by `c` and some Reads by `r` of what it put on the wire give `p` back, whatever
  -- follows it there, and leave the two in step.
  abbrev pub Delivers :
      Result PrivateKey
      → Result PrivateKey
      → Bytes
      → Conn l
      → Conn l
      → Bytes
      → Bytes
      → Bytes
      → Bytes
      → Type 0
  Delivers gen gen' p c r i o rest o' =
      (wire : Bytes) × (k : ℕ) × (c' r' : Conn l) × (write l gen p
          (record c { conn = open_stream i o })
        ≡ ret (length p) (record c' { conn = open_stream i (o ++ wire) }))
      × (read_times l gen' max_message_len k (record r { conn = open_stream (wire ++ rest) o' })
          ≡ ret p (record r' { conn = open_stream rest o' }))
      × IsSynced l c' r'
      × IsDrained l r'

module _ (l : Library) (sound : IsSound l) where
  open l use {PrivateKey, PublicKey, pub_key}

  generated : (e : PrivateKey) → choose_ephemeral l (ok e) none ≡ ok e
  unfolding choose_ephemeral
  generated e = refl

  handshake-client :
      (gen : Result PrivateKey) (s : PrivateKey) (remote : PublicKey) (i i' o o' ck h : Bytes)
      → run_initiator l gen s remote none (open_stream i o) ≡ ret (ck, h) (open_stream i' o')
      → handshake l gen (client l (open_stream i o) s remote)
        ≡ ret tt (split_keys l ck h (client l (open_stream i' o') s remote))
  unfolding handshake client
  handshake-client gen s remote i i' o o' ck h e = rw (e, on_conn, initiator_handshake) refl

  handshake-server :
      (gen : Result PrivateKey) (s : PrivateKey) (remote : PublicKey) (i i' o o' ck h : Bytes)
      → run_responder l gen s none (open_stream i o) ≡ ret (ck, h, remote) (open_stream i' o')
      → handshake l gen (server l (open_stream i o) s)
        ≡ ret tt (
            split_keys l ck h
              (record (server l (open_stream i' o') s) { remote_static = some remote }))
  unfolding handshake server
  handshake-server gen s remote i i' o o' ck h e = rw (e, on_conn, responder_handshake) refl

  -- Client and server, each over the bytes that the other one writes, both complete the handshake.
  -- Behind it each side's send keys are the other side's receive keys, both have the same
  -- fingerprint, and the server has learnt the client's static key.
  pub handshake-IsSynced : (s s' e f : PrivateKey) → Establishes l s s' e f
  unfolding client server split_keys fingerprint
  handshake-IsSynced s s' e f =
      let (act1, act2, act3, ck, h, n1, n2, n3, initiates, responds) =
        handshake_agree l sound (ok e) (ok f) s s' e f none none (generated e) (generated f) in
      (
        act1,
        act2,
        act3,
        λ rest rest' o o'. (
          _,
          _,
          handshake-client (ok e) s (pub_key s') _ _ _ _ ck h (initiates rest o),
          handshake-server (ok f) s' (pub_key s) _ _ _ _ ck h (responds rest' o'),
          refl,
          refl,
          record { key = refl; chain = refl; nonce = refl; fresh = (refl, omega arith) },
          record { key = refl; chain = refl; nonce = refl; fresh = (refl, omega arith) },
          record { done = refl; empty = refl },
          record { done = refl; empty = refl },
          refl,
          refl,
        ),
      )

  -- After the handshake, Write on an intact stream reports that it wrote all of `p`, and some
  -- number of Reads of a synced peer return exactly `p`, whatever follows on the wire. Both sides
  -- stay in step, across any number of rekeys.
  pub read-write :
      (gen gen' : Result PrivateKey) (p : Bytes) (c r : Conn l) (i o rest o' : Bytes)
      → c.handshake_done ≡ true
      → IsSynced l c r
      → IsDrained l r
      → Delivers l gen gen' p c r i o rest o'
  unfolding write handshake
  read-write gen gen' p c r i o rest o' done y d =
      let (wire, k, c', wrote, reads) =
        write_loop_lem l sound gen' (length p) 0 p (record c { handshake_done = true }) i o
          (omega arith) y.fresh in
      let synced : IsSynced l (record c { handshake_done = true }) r = record {
        key = y.key;
        chain = y.chain;
        nonce = y.nonce;
        fresh = y.fresh;
      } in
      let (r', got, y', d') = reads r rest o' synced d in
      (wire, k, c', r', simp (done, ◌>>=◌, wrote, zero-add) refl, got, y', d')
