-- ===== src/Raw/Dial/Race.antt =====
-- DialWithDialer under a time limit: the caller, the timer and the handshake's goroutine as steps
-- over the channel errChannel, which has room for two errors.
pub mod Returns
use noisecat.Base.{ℕ, suc, ◌<◌, ◌≡◌, Bool, true, false, List, [], ◌∷◌, ◌++◌, length, if◌then◌else◌}

-- What is sent on the channel.
pub data Report : Type 0 where
  completes fails times_out : Report

pub data Caller : Type 0 where
  dialing receiving dial_failed : Caller
  returned : Report → Caller

pub data Worker : Type 0 where
  idle shaking : Worker
  ended : Bool → Worker

pub record Race : Type 0 where
  pub caller : Caller
  pub worker : Worker
  pub has_fired : Bool
  pub ch : List Report
  -- Whether the socket is closed again.
  pub is_closed : Bool

-- time.AfterFunc was called.
abbrev pub armed : Race
armed = record { caller = dialing; worker = idle; has_fired = false; ch = []; is_closed = false }

abbrev pub report_of : Bool → Report
report_of good = if good then completes else fails

abbrev pub ends_badly : Report → Bool
ends_badly completes = false
ends_badly r = true

-- cap(errChannel)
abbrev pub capacity : ℕ
capacity = 2

-- A step; the Boolean says that it comes whatever the peer does.
pub data Step : Bool → Race → Race → Type 0 where
  connects :
      (s : Race)
      → s.caller ≡ dialing
      → Step true s (record s { caller = receiving; worker = shaking })
  refused : (s : Race) → s.caller ≡ dialing → Step true s (record s { caller = dial_failed })
  fires :
      (s : Race)
      → s.has_fired ≡ false
      → length s.ch < capacity
      → Step true s (record s { has_fired = true; ch = s.ch ++ times_out ∷ [] })
  shakes :
      (good : Bool) (s : Race)
      → s.worker ≡ shaking
      → length s.ch < capacity
      → Step false s (record s { worker = ended good; ch = s.ch ++ report_of good ∷ [] })
  receives :
      (r : Report) (rs : List Report) (s : Race)
      → s.caller ≡ receiving
      → s.ch ≡ r ∷ rs
      → Step true s (record s { caller = returned r; ch = rs; is_closed = ends_badly r })

pub data Reach (s : Race) : Race → Type 0 where
  here : Reach s s
  next : {b : Bool} {t u : Race} → Reach s t → Step b t u → Reach s u

abbrev pub steps : {s t : Race} → Reach s t → ℕ
steps here = 0
steps (next r st) = suc (steps r)

-- A run of steps that come whatever the peer does.
pub data Forced : Race → Race → Type 0 where
  stays : (s : Race) → Forced s s
  goes : {s t u : Race} → Step true s t → Forced t u → Forced s u

abbrev pub HasReturned : Caller → Type 0
HasReturned dialing = ⊥
HasReturned receiving = ⊥
HasReturned dial_failed = Unit
HasReturned (returned r) = Unit
