-- ===== src/Bolt8/Tests.antt =====
-- A small library that meets the assumptions, runs of the code over it, and the theorems at
-- concrete inputs.
use mathlib.Core.Bool.{Bool, true, false, ◌&&◌}
use noisecat.Base.{
  ℕ, ◌+◌, ◌%◌, ◌*◌, ◌/◌, ◌++◌, ◌≡◌, refl, arith, [], ◌∷◌, Option, some, none, Bytes, length,
  replicate, drop, get_or, ◌==◌, ==_refl, if◌then◌else◌, ok, err, ret, raise, after, wrap, text,
  open_stream, close, conn_closed,
}
use noisecat.Bolt8.Primitives.{Library, IsSound, decrypt_with_ad, nonce_le}
use noisecat.Bolt8.Handshake.{choose_ephemeral, run_initiator, run_responder}
use noisecat.Bolt8.Agreement.{handshake_agree}
use noisecat.Bolt8.Conn.{Conn, read, write}
use noisecat.Bolt8.Session.{Establishes, Delivers, handshake-IsSynced, read-write}
use noisecat.Bolt8.Rekey.{send_messages, rotated, send_messages_schedule}
use noisecat.Bolt8.Faults.{read_tampered}

abbrev total : Bytes → ℕ
total [] = 7
total (b ∷ bs) = b + total bs

abbrev unmark : ℕ → Bytes → Option Bytes
unmark t c = if get_or c 0 0 == t then some (drop 16 c) else none

abbrev parse_bit : Bytes → Option Bool
parse_bit [] = none
parse_bit (b ∷ bs) = some (b == 3)

abbrev mark : Bytes → Bytes → Bytes → ℕ
mark k n a = (total k + total n + total a) % 256

-- The curve is the group of two elements, the hash a checksum, the tag sixteen copies of one.
abbrev toy : Library
toy = record {
  PrivateKey = Bool;
  PublicKey = Bool;
  FieldVal = ℕ;
  pub_key = λ a. a;
  serialize_compressed = λ q. (if q then 3 else 2) ∷ replicate 32 0;
  parse_pub_key = parse_bit;
  scalar_mult = λ a q. (if a && q then 1 else 0, 0);
  is_odd = λ y. y % 2 == 1;
  field_bytes = λ x. replicate 32 x;
  sha256 = λ b. replicate 32 (total b % 256);
  hkdf = λ secret salt info n. replicate n ((total secret + total salt) % 256);
  seal = λ k n p a. replicate 16 (mark k n a) ++ p;
  unseal = λ k n c a. unmark (mark k n a) c;
}

and_comm : (a b : Bool) → ◌≡◌ {A = ℕ × ℕ} (if a && b then 1 else 0, 0) (if b && a then 1 else 0, 0)
and_comm true true = refl
and_comm true false = refl
and_comm false true = refl
and_comm false false = refl

parse_written : (q : Bool) → parse_bit ((if q then 3 else 2) ∷ replicate 32 0) ≡ some q
parse_written true = refl
parse_written false = refl

toy-IsSound : IsSound toy
toy-IsSound = record {
  unseal-seal = λ k n p a. rw (==_refl (mark k n a)) refl;
  length-seal = λ k n p a. omega arith;
  parse-serialize = parse_written;
  length-serialize = λ q. refl;
  scalar_mult_comm = and_comm;
}

handshake_agree_example :
    (act1 act2 act3 ck h : Bytes) × (length act1 ≡ 50)
    × (length act2 ≡ 50)
    × (length act3 ≡ 66)
    × ((rest o : Bytes)
        → run_initiator toy (ok true) true false none (open_stream (act2 ++ rest) o)
          ≡ ret (ck, h) (open_stream rest ((o ++ act1) ++ act3)))
    × ((rest o : Bytes)
        → run_responder toy (ok false) false (some true) (open_stream (act1 ++ (act3 ++ rest)) o)
          ≡ ret (ck, h, true) (open_stream rest (o ++ act2)))
unfolding choose_ephemeral
handshake_agree_example =
    handshake_agree toy toy-IsSound (ok true) (ok false) true false true true none (some true) refl
      refl

handshake-IsSynced_example : Establishes toy true false true true
handshake-IsSynced_example = handshake-IsSynced toy toy-IsSound true false true true

abbrev connected : Conn toy
connected = record {
  conn = open_stream [] [];
  is_initiator = true;
  local_static = true;
  remote_static = some false;
  handshake_done = true;
  sk = replicate 32 5;
  rk = replicate 32 6;
  sck = replicate 32 7;
  rck = replicate 32 7;
  sn = 998;
  rn = 0;
  handshake_hash = replicate 32 9;
  read_buf = [];
}

abbrev greeting : Bytes
greeting = 104 ∷ 105 ∷ []

abbrev listening : Conn toy
listening = record connected {
  is_initiator = false;
  sk = replicate 32 6;
  rk = replicate 32 5;
  sn = 0;
  rn = 998;
}

-- The write rekeys: the nonce is 998.
read-write_example : Delivers toy (ok true) (ok true) greeting connected listening [] [] [] []
read-write_example =
    read-write toy toy-IsSound (ok true) (ok true) greeting connected listening [] [] [] [] refl
      (record { key = refl; chain = refl; nonce = refl; fresh = (refl, omega arith) })
      (record { done = refl; empty = refl })

abbrev started : Conn toy
started = record connected { sn = 0 }

send_messages_schedule_example :
    (c : Conn toy) × (wire : Bytes) × (send_messages toy (greeting ∷ []) started
      ≡ ret tt (record c { conn = open_stream [] ([] ++ wire) }))
    × (c.sck ≡ (rotated toy (1 / 500) started.sck started.sk).0)
    × (c.sk ≡ (rotated toy (1 / 500) started.sck started.sk).1)
    × (c.sn ≡ 2 * (1 % 500))
send_messages_schedule_example = send_messages_schedule toy (greeting ∷ []) started [] [] refl

abbrev noise18 : Bytes
noise18 = replicate 18 1

bad_mac :
    decrypt_with_ad toy started.rk 0 [] noise18
    ≡ err (text "chacha20poly1305: message authentication failed")
unfolding decrypt_with_ad nonce_le
bad_mac = refl

read_tampered_example :
    let dead = record started { conn = close (open_stream [] []) } in
    (read toy (ok true) 5 (record started { conn = open_stream (noise18 ++ []) [] })
      ≡ raise
          (wrap "bolt8: decrypt length" (text "chacha20poly1305: message authentication failed"))
          dead)
    × (read toy (ok true) 5 dead ≡ raise conn_closed dead)
    × ((after (write toy (ok true) (1 ∷ []) dead)).conn ≡ close (open_stream [] []))
read_tampered_example =
    read_tampered toy (ok true) 5 5 started noise18 [] [] [] 1 _ (omega arith) (omega arith)
      (record { done = refl; empty = refl }) refl bad_mac
