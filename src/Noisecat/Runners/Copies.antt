-- ===== src/Noisecat/Runners/Copies.antt =====
-- The runs of handleIO.
use noisecat.Base.{
  ℕ, ◌+◌, ◌≡◌, ◌≢◌, ◌⊎◌, inl, inr, ap, refl, arith, Bool, true, false, Option, none, some, List, [],
  ◌∷◌, ◌++◌, length, length-append,
}
use noisecat.Noisecat.Runners.Closing.{Endpoint, Ending, signal_end}
use noisecat.Noisecat.Runners.{
  Setting, Dir, snt, rcv, Phase, copying, returned, signalled, reported, Waiting, for_first,
  for_second, to_close, finished, Timer, unset, armed, stopped, fired, Io, started, phase,
  set_phase, signal_end_of_write, push, stop, Step, ends, breaks, signals, reports, first, fires,
  second, closes, Reach, here, next,
}

abbrev pub sent : Phase → ℕ
sent reported = 1
sent p = 0

abbrev pub taken : Waiting → ℕ
taken for_first = 0
taken for_second = 1
taken to_close = 2
taken finished = 2

-- How a copy's phase and the end of its destination go together.
abbrev pub Told : Endpoint → Phase → Option Ending → Type 0
Told dst copying end = end ≡ none
Told dst returned end = end ≡ none
Told dst signalled end = end ≡ some (signal_end dst)
Told dst reported end = end ≡ some (signal_end dst)

abbrev pub Guarded : Waiting → Timer → Bool → Type 0
Guarded for_first t closed = (t ≡ unset) × (closed ≡ false)
Guarded for_second t closed = (t ≡ armed) ⊎ (closed ≡ true)
Guarded to_close t closed = t ≢ armed
Guarded finished t closed = (t ≢ armed) × (closed ≡ true)

-- Every progress on the channel or taken from it was reported once; what was done to a
-- destination is signalEndOfWrite, behind the end of its copy; fullClose does not run before the first
-- report is taken; then the timer runs or all is
-- closed; at the end all is closed.
pub record IsSound (x : Setting) (s : Io) : Type 0 where
  pub counted : sent s.snt_phase + sent s.rcv_phase ≡ taken s.waiting + length s.ch
  pub conn_told : Told x.conn s.snt_phase s.conn_end
  pub writer_told : Told x.writer s.rcv_phase s.writer_end
  pub is_guarded : Guarded s.waiting s.timer s.is_closed

started-IsSound : (x : Setting) → IsSound x started
started-IsSound x = record {
  counted = refl;
  conn_told = refl;
  writer_told = refl;
  is_guarded = (refl, refl);
}

fired-Guarded :
    (w : Waiting) (t : Timer) (b : Bool) → t ≡ armed → Guarded w t b → Guarded w fired true
fired-Guarded for_first t b e g = absurd (cc (e, g.0))
fired-Guarded for_second t b e g = inr refl
fired-Guarded to_close t b e g = absurd (g e)
fired-Guarded finished t b e g = absurd (g.0 e)

stop-not_armed : (t : Timer) → stop t ≢ armed
stop-not_armed unset = λ e. cc
stop-not_armed armed = λ e. cc
stop-not_armed stopped = λ e. cc
stop-not_armed fired = λ e. cc

closing-Guarded : (w : Waiting) (t : Timer) (b : Bool) → w ≡ to_close → Guarded w t b → t ≢ armed
closing-Guarded for_first t b e g = absurd (cc e)
closing-Guarded for_second t b e g = absurd (cc e)
closing-Guarded to_close t b e g = g
closing-Guarded finished t b e g = absurd (cc e)

length-push : (ch : List Dir) (d : Dir) → length (ch ++ d ∷ []) ≡ length ch + 1
length-push ch d = length-append ch (d ∷ [])

signalled-Told :
    (dst : Endpoint) (p : Phase) (end : Option Ending)
    → p ≡ signalled
    → Told dst p end
    → end ≡ some (signal_end dst)
signalled-Told dst copying end e h = absurd (cc e)
signalled-Told dst returned end e h = absurd (cc e)
signalled-Told dst signalled end e h = h
signalled-Told dst reported end e h = h

copying-Told :
    (dst : Endpoint) (p : Phase) (end : Option Ending) → p ≡ copying → Told dst p end → end ≡ none
copying-Told dst copying end e h = h
copying-Told dst returned end e h = h
copying-Told dst signalled end e h = absurd (cc e)
copying-Told dst reported end e h = absurd (cc e)

-- A step of one copy leaves the rest as it is.
module _ (x : Setting) where
  returned-IsSound :
      (d : Dir) (s : Io) → phase d s ≡ copying → IsSound x s → IsSound x (set_phase d returned s)
  returned-IsSound snt s e h = record {
    counted = omega (arith, h.counted, ap sent e);
    conn_told = copying-Told x.conn s.snt_phase s.conn_end e h.conn_told;
    writer_told = h.writer_told;
    is_guarded = h.is_guarded;
  }
  returned-IsSound rcv s e h = record {
    counted = omega (arith, h.counted, ap sent e);
    conn_told = h.conn_told;
    writer_told = copying-Told x.writer s.rcv_phase s.writer_end e h.writer_told;
    is_guarded = h.is_guarded;
  }

  signalled-IsSound :
      (d : Dir) (s : Io)
      → phase d s ≡ returned
      → IsSound x s
      → IsSound x (set_phase d signalled (signal_end_of_write x d s))
  signalled-IsSound snt s e h = record {
    counted = omega (arith, h.counted, ap sent e);
    conn_told = refl;
    writer_told = h.writer_told;
    is_guarded = h.is_guarded;
  }
  signalled-IsSound rcv s e h = record {
    counted = omega (arith, h.counted, ap sent e);
    conn_told = h.conn_told;
    writer_told = refl;
    is_guarded = h.is_guarded;
  }

  reported-IsSound :
      (d : Dir) (s : Io)
      → phase d s ≡ signalled
      → IsSound x s
      → IsSound x (set_phase d reported (push d s))
  reported-IsSound snt s e h = record {
    counted = omega (arith, h.counted, ap sent e, length-push s.ch snt);
    conn_told = signalled-Told x.conn s.snt_phase s.conn_end e h.conn_told;
    writer_told = h.writer_told;
    is_guarded = h.is_guarded;
  }
  reported-IsSound rcv s e h = record {
    counted = omega (arith, h.counted, ap sent e, length-push s.ch rcv);
    conn_told = h.conn_told;
    writer_told = signalled-Told x.writer s.rcv_phase s.writer_end e h.writer_told;
    is_guarded = h.is_guarded;
  }

  pub Step-IsSound : {b : Bool} {s t : Io} → Step x b s t → IsSound x s → IsSound x t
  Step-IsSound (ends d s e) h = returned-IsSound d s e h
  Step-IsSound (breaks d s e c w) h = returned-IsSound d s e h
  Step-IsSound (signals d s e) h = signalled-IsSound d s e h
  Step-IsSound (reports d s e) h = reported-IsSound d s e h
  Step-IsSound (first d ds s e c) h = record {
    counted = omega (arith, h.counted, ap taken e, ap length c);
    conn_told = h.conn_told;
    writer_told = h.writer_told;
    is_guarded = inl refl;
  }
  Step-IsSound (fires s e) h = record {
    counted = h.counted;
    conn_told = h.conn_told;
    writer_told = h.writer_told;
    is_guarded = fired-Guarded s.waiting s.timer s.is_closed e h.is_guarded;
  }
  Step-IsSound (second d ds s e c) h = record {
    counted = omega (arith, h.counted, ap taken e, ap length c);
    conn_told = h.conn_told;
    writer_told = h.writer_told;
    is_guarded = stop-not_armed s.timer;
  }
  Step-IsSound (closes s e) h = record {
    counted = omega (arith, h.counted, ap taken e);
    conn_told = h.conn_told;
    writer_told = h.writer_told;
    is_guarded = (closing-Guarded s.waiting s.timer s.is_closed e h.is_guarded, refl);
  }

  Reach-IsSound : {s t : Io} → IsSound x s → Reach x s t → IsSound x t
  Reach-IsSound h here = h
  Reach-IsSound h (next r st) = Step-IsSound st (Reach-IsSound h r)

  pub handle_io-IsSound : {s : Io} → Reach x started s → IsSound x s
  handle_io-IsSound r = Reach-IsSound (started-IsSound x) r
