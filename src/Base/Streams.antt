-- ===== src/Base/Streams.antt =====
-- A net.Conn of the standard library as its users see it: a byte stream each way.
use Prim.Native.Nat.{ℕ, zero, suc, ◌<◌}
use mathlib.Core.Path.{◌≡◌, refl}
use mathlib.Core.Option.{Option, none, some}
use mathlib.Core.Bool.{Bool, true, false}
use mathlib.Core.List.{List, [], ◌∷◌, ◌++◌}
use native.Mathlib.Omega.{arith}
use noisecat.Base.Tests.{leb, if◌then◌else◌, le→leb}
use noisecat.Base.Lists.{Bytes, length, take, drop, length-append, take-append, drop-append}
use noisecat.Base.Actions.{
  Error, eof, unexpected_eof, conn_closed, write_failed, ret, raise, Action,
}

-- `inbound` is what arrives before the peer's stream ends, `outbound` all that was written.
-- `faults` tells the fate of the next writes: `some k` fails behind `k` bytes, no entry succeeds.
pub record Stream : Type 0 where
  pub inbound : Bytes
  pub outbound : Bytes
  pub closed : Bool
  pub faults : List (Option ℕ)

unfoldable pub short_read : Bytes → Error
short_read [] = eof
short_read (b ∷ bs) = unexpected_eof

-- io.ReadFull into a buffer of `n` bytes: no byte is asked of the connection for `n = 0`.
unfoldable pub read_full : ℕ → Action Stream Bytes
unfolding short_read
read_full zero s = ret ([]) (s)
read_full (suc n) s =
    if s.closed
    then raise (conn_closed) (s)
    else if leb (suc n) (length s.inbound)
    then ret ((take (suc n) s.inbound)) (record s { inbound = drop (suc n) s.inbound })
    else raise ((short_read s.inbound)) (record s { inbound = [] })

send : List (Option ℕ) → Bytes → Action Stream (Unit {0})
send [] b s = ret (tt) (record s { outbound = s.outbound ++ b })
send (none ∷ fs) b s = ret (tt) (record s { outbound = s.outbound ++ b; faults = fs })
send (some k ∷ fs) b s =
    raise (write_failed) (record s { outbound = s.outbound ++ take k b; faults = fs })

-- conn.Write
unfoldable pub write_all : Bytes → Action Stream (Unit {0})
unfolding send
write_all b s = if s.closed then raise (conn_closed) (s) else send s.faults b s

unfoldable pub close : Stream → Stream
close s = record s { closed = true }

-- A stream over which every write succeeds.
abbrev pub open_stream : Bytes → Bytes → Stream
open_stream i o = record { inbound = i; outbound = o; closed = false; faults = [] }

pub read_full-append :
    (n : ℕ) (xs rest o : Bytes)
    → length xs ≡ n
    → read_full n (open_stream (xs ++ rest) o) ≡ ret (xs) (open_stream rest o)
unfolding read_full
read_full-append zero [] rest o h = refl
read_full-append zero (x ∷ xs) rest o h = absurd (omega arith)
read_full-append (suc n) xs rest o h =
    rw (take-append (suc n) xs rest h, drop-append (suc n) xs rest h, enough) refl
  where
    enough : leb (suc n) (length (xs ++ rest)) ≡ true
    enough = le→leb _ _ (omega (arith, length-append xs rest))

pub read_full_short :
    (n : ℕ) (i o : Bytes)
    → length i < n
    → read_full n (open_stream i o) ≡ raise ((short_read i)) (open_stream [] o)
unfolding read_full
read_full_short zero i o h = absurd (omega arith)
read_full_short (suc n) i o h = ground arith

pub write_all-open_stream :
    (b i o : Bytes) → write_all b (open_stream i o) ≡ ret (tt) (open_stream i (o ++ b))
unfolding write_all
write_all-open_stream b i o = refl
