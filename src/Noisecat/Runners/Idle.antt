-- ===== src/Noisecat/Runners/Idle.antt =====
-- pkg/noisecat/timeout.go: idleConn. Times and durations are in nanoseconds; a call behind the deadline
-- fails, as net.Conn says.
use noisecat.Base.{
  ℕ, ◌+◌, ◌≤◌, ◌<◌, ◌≡◌, ◌∙◌, ap, refl, List, [], ◌∷◌, if◌then◌else◌, ltb, lt→ltb, Option, none,
  some, ℤ, pos, negsuc,
}

pub record IdleConn : Type 0 where
  pub idle : ℕ
  pub deadline : ℕ

unfoldable pub bump : ℕ → IdleConn → IdleConn
bump now c = record c { deadline = now + c.idle }

-- newIdleConn; none is the connection as it is.
unfoldable pub new_idle_conn : ℤ → ℕ → Option IdleConn
new_idle_conn (negsuc n) now = none
new_idle_conn (pos n) now =
    if ltb 0 n then some (bump now (record { idle = n; deadline = 0 })) else none

-- Read and Write, which return n bytes at the time `now`; none where the deadline has passed.
unfoldable pub io : ℕ → ℕ → IdleConn → Option IdleConn
io now n c = if ltb now c.deadline then some (if ltb 0 n then bump now c else c) else none

abbrev pub and_then : Option IdleConn → (IdleConn → Option IdleConn) → Option IdleConn
and_then none next = none
and_then (some c) next = next c

unfoldable pub ios : List (ℕ × ℕ) → IdleConn → Option IdleConn
ios [] c = some c
ios ((now, n) ∷ calls) c = and_then (io now n c) (ios calls)

abbrev pub last_time : ℕ → List (ℕ × ℕ) → ℕ
last_time t [] = t
last_time t ((now, n) ∷ calls) = last_time now calls

-- Each call moves some bytes, less than `idle` behind the one before.
abbrev pub IsBusy : ℕ → ℕ → List (ℕ × ℕ) → Type 0
IsBusy idle t [] = Unit
IsBusy idle t ((now, n) ∷ calls) = (t ≤ now) × (now < t + idle) × (0 < n) × IsBusy idle now calls

io-bump : (now n : ℕ) (c : IdleConn) → now < c.deadline → 0 < n → io now n c ≡ some (bump now c)
unfolding io
io-bump now n c soon some_bytes = simp (lt→ltb now c.deadline soon, lt→ltb 0 n some_bytes) refl

-- A connection that moves some bytes before each idle time has passed is never timed out, and its
-- deadline stays the idle time behind the last call.
pub ios-IsBusy :
    (idle t : ℕ) (calls : List (ℕ × ℕ))
    → IsBusy idle t calls
    → ios calls (record { idle = idle; deadline = t + idle })
      ≡ some (record { idle = idle; deadline = last_time t calls + idle })
unfolding ios bump
ios-IsBusy idle t [] h = refl
ios-IsBusy idle t ((now, n) ∷ calls) (later, soon, some_bytes, busy) =
    ap (λ o. and_then o (ios calls))
      (io-bump now n (record { idle = idle; deadline = t + idle }) soon some_bytes)
    ∙ ios-IsBusy idle now calls busy
