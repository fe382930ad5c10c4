-- ===== src/Bolt8/Conn.antt =====
-- pkg/transport/bolt8/conn.go: the connection. Its mutexes serialise the calls of each direction,
-- so that a call is one step here.
use noisecat.Base.{
  ℕ, zero, suc, ◌+◌, ◌*◌, ◌/◌, ◌%◌, ◌^◌, min, ◌++◌, Bool, true, false, Option, none, some, [], ◌∷◌,
  Bytes, length, take, drop, replicate, get_or, ◌==◌, ltb, if◌then◌else◌, Result, ok, err, Error,
  String, ret, raise, Action, ◌>>=◌, ◌>>◌, pure, lift, gets, modify, Stream, read_full, write_all,
  close,
}
use noisecat.Bolt8.Primitives.{
  Library, hkdf_expand, encrypt_with_ad, decrypt_with_ad, mac_size, rekey_interval, max_message_len,
}
use noisecat.Bolt8.Handshake.{run_initiator, run_responder}

pub record Conn (l : Library) : Type 0 where
  pub conn : Stream
  pub is_initiator : Bool
  pub local_static : l.PrivateKey
  pub remote_static : Option l.PublicKey
  pub handshake_done : Bool
  pub sk : Bytes
  pub rk : Bytes
  pub sck : Bytes
  pub rck : Bytes
  pub sn : ℕ
  pub rn : ℕ
  pub handshake_hash : Bytes
  pub read_buf : Bytes

-- A call on the connection underneath.
abbrev pub on_conn : {l : Library} {A : Type 0} → Action Stream A → Action (Conn l) A
on_conn m c = elim (m c.conn) [
  | ret a s ↦ ret a (record c { conn = s })
  | raise e s ↦ raise e (record c { conn = s })
]

-- uint64's `++`.
abbrev pub inc64 : ℕ → ℕ
inc64 n = (n + 1) % 2 ^ 64

abbrev pub zero_hash : Bytes
zero_hash = replicate 32 0

module _ (l : Library) where
  open l use {PrivateKey, PublicKey}

  blank : Stream → Bool → PrivateKey → Option PublicKey → Conn l
  blank s is_initiator priv remote = record {
    conn = s;
    is_initiator = is_initiator;
    local_static = priv;
    remote_static = remote;
    handshake_done = false;
    sk = zero_hash;
    rk = zero_hash;
    sck = zero_hash;
    rck = zero_hash;
    sn = 0;
    rn = 0;
    handshake_hash = zero_hash;
    read_buf = [];
  }

  -- Client and Server.
  unfoldable pub client : Stream → PrivateKey → PublicKey → Conn l
  unfolding blank
  client s priv remote = blank s true priv (some remote)

  unfoldable pub server : Stream → PrivateKey → Conn l
  unfolding blank
  server s priv = blank s false priv none

  -- The keys of both directions, from the chaining key and the final hash.
  unfoldable pub split_keys : Bytes → Bytes → Conn l → Conn l
  split_keys ck final_hash c =
      let (a, b) = hkdf_expand l ck [] in
      record c {
        handshake_hash = final_hash;
        sk = if c.is_initiator then a else b;
        rk = if c.is_initiator then b else a;
        sck = ck;
        rck = ck;
        handshake_done = true;
      }

  -- A failed handshake leaves the zero hash behind.
  unfoldable pub failed : Error → Action (Conn l) (Unit {0})
  failed e c = raise e (record c { handshake_hash = zero_hash })

  unfoldable pub initiator_handshake :
      Result PrivateKey → Option PublicKey → Action (Conn l) (Unit {0})
  unfolding split_keys failed
  initiator_handshake gen none c = raise (Error.text "bolt8: initiator missing remote static key") c
  initiator_handshake gen (some remote) c =
      elim (on_conn (run_initiator l gen c.local_static remote none) c) [
        | ret (ck, final_hash) c' ↦ ret tt (split_keys ck final_hash c')
        | raise e c' ↦ failed e c'
      ]

  unfoldable pub responder_handshake : Result PrivateKey → Action (Conn l) (Unit {0})
  unfolding split_keys failed
  responder_handshake gen c = elim (on_conn (run_responder l gen c.local_static none) c) [
    | ret (ck, final_hash, rs) c' ↦
        ret tt (split_keys ck final_hash (record c' { remote_static = some rs }))
    | raise e c' ↦ failed e c'
  ]

  unfoldable pub handshake : Result PrivateKey → Action (Conn l) (Unit {0})
  unfolding initiator_handshake responder_handshake
  handshake gen c =
      if c.handshake_done
      then ret tt c
      else if c.is_initiator
      then initiator_handshake gen c.remote_static c
      else responder_handshake gen c

  unfoldable pub fingerprint : Conn l → Bytes
  fingerprint c = if c.handshake_done then c.handshake_hash else zero_hash

  unfoldable pub maybe_rekey_send : Conn l → Conn l
  maybe_rekey_send c =
      if ltb c.sn rekey_interval
      then c
      else let (ck, k) = hkdf_expand l c.sck c.sk in record c { sck = ck; sk = k; sn = 0 }

  unfoldable pub maybe_rekey_recv : Conn l → Conn l
  maybe_rekey_recv c =
      if ltb c.rn rekey_interval
      then c
      else let (ck, k) = hkdf_expand l c.rck c.rk in record c { rck = ck; rk = k; rn = 0 }

  unfoldable pub write_message : Bytes → Action (Conn l) (Unit {0})
  write_message m = do
    let mlen = length m % 2 ^ 16
    let len_bytes = (mlen / 256 % 256) ∷ (mlen % 256) ∷ []
    c1 ← gets (λ c. c)
    lc ← lift (encrypt_with_ad l c1.sk c1.sn [] len_bytes)
    modify (λ c. record c { sn = inc64 c.sn })
    c2 ← gets (λ c. c)
    pc ← lift (encrypt_with_ad l c2.sk c2.sn [] m)
    modify (λ c. record c { sn = inc64 c.sn })
    on_conn (write_all (lc ++ pc))
    modify maybe_rekey_send

  -- The loop of Write. Each round takes a byte at least, so `length p` rounds are enough.
  unfoldable pub write_loop : ℕ → ℕ → Bytes → Action (Conn l) ℕ
  write_loop fuel total [] = pure total
  write_loop zero total (b ∷ p) = pure total
  write_loop (suc fuel) total (b ∷ p) = do
    let n = min (length (b ∷ p)) max_message_len
    write_message (take n (b ∷ p))
    write_loop fuel (total + n) (drop n (b ∷ p))

  -- The count of bytes written behind a nil error.
  unfoldable pub write : Result PrivateKey → Bytes → Action (Conn l) ℕ
  write gen p = do handshake gen; write_loop (length p) 0 p

  -- A MAC that does not match closes the connection.
  or_close : String → Result Bytes → Action (Conn l) Bytes
  or_close msg (ok p) c = ret p c
  or_close msg (err e) c = raise (Error.wrap msg e) (record c { conn = close c.conn })

  -- One frame off the wire.
  unfoldable pub read_message : Action (Conn l) Bytes
  unfolding or_close
  read_message = do
    lc ← on_conn (read_full (2 + mac_size))
    c1 ← gets (λ c. c)
    len_plain ← or_close "bolt8: decrypt length" (decrypt_with_ad l c1.rk c1.rn [] lc)
    modify (λ c. record c { rn = inc64 c.rn })
    let body_len = get_or len_plain 0 0 * 256 + get_or len_plain 1 0
    body ← on_conn (read_full (body_len + mac_size))
    c2 ← gets (λ c. c)
    plaintext ← or_close "bolt8: decrypt body" (decrypt_with_ad l c2.rk c2.rn [] body)
    modify (λ c. record c { rn = inc64 c.rn })
    modify maybe_rekey_recv
    pure plaintext

  -- What Read does with a message: it hands out `room` bytes and keeps the rest.
  unfoldable pub deliver : ℕ → Bytes → Action (Conn l) Bytes
  deliver room plaintext c =
      ret (take room plaintext) (record c { read_buf = c.read_buf ++ drop room plaintext })

  read_buffered : ℕ → Bytes → Action (Conn l) Bytes
  read_buffered room [] c = (read_message >>= deliver room) c
  read_buffered room (b ∷ bs) c =
      ret (take room (b ∷ bs)) (record c { read_buf = drop room (b ∷ bs) })

  -- Read into a buffer of `room` bytes: the bytes copied there.
  unfoldable pub read : Result PrivateKey → ℕ → Action (Conn l) Bytes
  unfolding read_buffered deliver
  read gen room = do
    handshake gen
    c ← gets (λ c. c)
    if room == 0 then pure [] else read_buffered room c.read_buf
