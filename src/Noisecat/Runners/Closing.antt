-- ===== src/Noisecat/Runners/Closing.antt =====
-- fullClose and signalEndOfWrite of pkg/noisecat/runners.go, and idleConn of timeout.go. An endpoint
-- is a number, the same for the same value; `now` is a time in nanoseconds.
use noisecat.Base.{
  ℕ, ◌+◌, ◌≡◌, arith, Bool, true, false, refl, not, ◌&&◌, ◌||◌, ◌++◌, List, [], ◌∷◌, ◌==◌,
  if◌then◌else◌,
}

pub record Endpoint : Type 0 where
  pub id : ℕ
  pub is_closer : Bool
  pub half_closes : Bool

pub data Ending : Type 0 where
  half_close full_close nothing : Ending

-- signalEndOfWrite
unfoldable pub signal_end : Endpoint → Ending
signal_end e = if e.half_closes then half_close else (if e.is_closer then full_close else nothing)

-- idleConn around a connection always has a CloseWrite, which does nothing where the connection has none.
abbrev idle_endpoint : Endpoint → Endpoint
idle_endpoint e = record e { is_closer = true; half_closes = true }

unfoldable pub idle_close_write : Endpoint → Ending
idle_close_write e = if e.half_closes then half_close else nothing

-- What signalEndOfWrite on the idleConn does to the connection.
unfoldable pub idle_signal_end : Endpoint → Ending
unfolding signal_end
idle_signal_end e = elim (signal_end (idle_endpoint e)) [
  | half_close ↦ idle_close_write e
  | full_close ↦ full_close
  | nothing ↦ nothing
]

-- Through idleConn the end of the data reaches exactly the connections that can be half closed.
pub idle_signal_end_lem :
    (e : Endpoint) → idle_signal_end e ≡ (if e.half_closes then signal_end e else nothing)
unfolding idle_signal_end idle_close_write signal_end
idle_signal_end_lem e = on_half_closes e.half_closes
  where
    on_half_closes :
        (b : Bool)
        → (if b then half_close else nothing) ≡ (
            if b
            then (if b then half_close else if e.is_closer then full_close else nothing)
            else nothing)
    on_half_closes true = refl
    on_half_closes false = refl

abbrev pub when_ : Bool → ℕ → List ℕ
when_ b n = if b then n ∷ [] else []

-- fullClose: what it closes, in order.
unfoldable pub closed_endpoints : ℕ → Endpoint → Endpoint → List ℕ
closed_endpoints conn w r =
    let close_w = w.is_closer && not (w.id == conn) in
    let close_r = r.is_closer && not (r.id == conn) && not (close_w && (r.id == w.id)) in
    conn ∷ (when_ close_w w.id ++ when_ close_r r.id)

abbrev pub count : ℕ → List ℕ → ℕ
count n [] = 0
count n (m ∷ ms) = (if n == m then 1 else 0) + count n ms

-- fullClose closes the connection, and the writer and the reader where they can be closed, each
-- exactly once also where they are one value, and nothing else.
pub closed_endpoints_once :
    (conn : ℕ) (w r : Endpoint) (n : ℕ)
    → count n (closed_endpoints conn w r)
      ≡ (if n == conn || (w.is_closer && (n == w.id)) || (r.is_closer && (n == r.id)) then 1 else 0)
unfolding closed_endpoints
closed_endpoints_once conn w r n = ground arith
