-- ===== src/Whatsapp/Conn.antt =====
-- pkg/transport/whatsapp/conn.go: the transport connection. The deferred handshake is `hs_fn`, which
-- runs once: `hs_done` and `hs_err` are what sync.Once and hsErr keep. The deadlines and the locks
-- are left out: a call runs as a whole.
pub mod Session
use noisecat.Base.{
  ℕ, zero, suc, ◌+◌, ◌-◌, ◌%◌, ◌^◌, Bool, true, false, Option, none, some, [], ◌∷◌, Bytes, length,
  take, drop, min, ltb, if◌then◌else◌, Error, panics, ret, raise, Action, Outcome, ◌>>=◌, ◌>>◌,
  pure, lift, gets, modify, wrapped,
}
use noisecat.Whatsapp.Framing.{FramedConn, max_frame_len, write_frame, read_frame}
use noisecat.Whatsapp.Noise.{Library, generate_iv, HandshakeResult}

module _ (l : Library) where
  -- The keys are nil until a handshake has set them.
  pub record Conn : Type 0 where
    pub framed : FramedConn
    pub hs_fn : Option (Action FramedConn (HandshakeResult l))
    pub hs_done : Bool
    pub hs_err : Option Error
    pub keys : Option (HandshakeResult l)
    pub write_counter : ℕ
    pub read_counter : ℕ
    pub read_buf : Bytes

  unfoldable pub new_conn : FramedConn → HandshakeResult l → Conn
  new_conn f hs = record {
    framed = f;
    hs_fn = none;
    hs_done = false;
    hs_err = none;
    keys = some hs;
    write_counter = 0;
    read_counter = 0;
    read_buf = [];
  }

  unfoldable pub new_deferred_server_conn :
      FramedConn → Action FramedConn (HandshakeResult l) → Conn
  new_deferred_server_conn f hs_fn = record {
    framed = f;
    hs_fn = some hs_fn;
    hs_done = false;
    hs_err = none;
    keys = none;
    write_counter = 0;
    read_counter = 0;
    read_buf = [];
  }

  abbrev pub on_framed : {A : Type 0} → Action FramedConn A → Action Conn A
  on_framed m c = elim (m c.framed) [
    | ret a f ↦ ret a (record c { framed = f })
    | raise e f ↦ raise e (record c { framed = f })
  ]

  once : Outcome FramedConn (HandshakeResult l) → Conn → Conn
  once (ret hs f) c = record c { framed = f; hs_done = true; keys = some hs }
  once (raise e f) c = record c { framed = f; hs_done = true; hs_err = some e }

  run_once : Option (Action FramedConn (HandshakeResult l)) → Conn → Conn
  unfolding once
  run_once none c = c
  run_once (some fn) c = if c.hs_done then c else once (fn c.framed) c

  had : Option Error → Action Conn (Unit {0})
  had none c = ret tt c
  had (some e) c = raise e c

  unfoldable pub ensure_handshake : Action Conn (Unit {0})
  unfolding run_once had
  ensure_handshake c =
      let c' = run_once c.hs_fn c in elim c.hs_fn [ none ↦ ret tt c | some fn ↦ had c'.hs_err c' ]

  abbrev pub with_keys : Action Conn (HandshakeResult l)
  with_keys c = elim c.keys [ none ↦ raise (panics "nil cipher") c | some k ↦ ret k c ]

  -- `const maxPlain = maxFrameLen - 16`
  abbrev pub max_plain : ℕ
  max_plain = max_frame_len - 16

  -- One round: the frame of the next part. The counter, a uint32, moves before the write.
  unfoldable pub write_part : Bytes → Action Conn (Unit {0})
  write_part part = do
    k ← with_keys
    n ← gets (λ c. c.write_counter)
    modify (λ c. record c { write_counter = (c.write_counter + 1) % 2 ^ 32 })
    on_framed (write_frame (l.seal k.write_key (generate_iv n) part []))

  -- The loop, `for len(p) > 0`; each round takes a byte at least.
  unfoldable pub write_loop : ℕ → ℕ → Bytes → Action Conn ℕ
  write_loop fuel total [] = pure total
  write_loop zero total (b ∷ p) = λ c. raise (panics "out of fuel") c
  write_loop (suc fuel) total (b ∷ p) = do
    let n = min (length (b ∷ p)) max_plain
    write_part (take n (b ∷ p))
    write_loop fuel (total + n) (drop n (b ∷ p))

  -- conn.Write. The count that goes with an error is left out.
  unfoldable pub write : Bytes → Action Conn ℕ
  write p = do ensure_handshake; write_loop (length p) 0 p

  read_next : ℕ → Action Conn Bytes
  read_next size = do
    k ← with_keys
    ciphertext ← on_framed read_frame
    n ← gets (λ c. c.read_counter)
    plaintext ← lift (
        wrapped "whatsapp: decrypt transport frame"
          (l.unseal k.read_key (generate_iv n) ciphertext []))
    modify (λ c. record c {
      read_counter = (c.read_counter + 1) % 2 ^ 32;
      read_buf = drop size plaintext;
    })
    pure (take size plaintext)

  read_buffered : ℕ → Action Conn Bytes
  read_buffered size c = ret (take size c.read_buf) (record c { read_buf = drop size c.read_buf })

  -- conn.Read into a buffer of `size` bytes: what it copies.
  unfoldable pub read : ℕ → Action Conn Bytes
  unfolding read_next read_buffered
  read zero = pure []
  read (suc m) = do
    ensure_handshake
    buf ← gets (λ c. c.read_buf)
    if ltb 0 (length buf) then read_buffered (suc m) else read_next (suc m)
