-- ===== src/Noisecat/Runners/Returns.antt =====
-- handleIO returns.
use noisecat.Base.{
  ℕ, zero, suc, ◌+◌, ◌≤◌, ◌<◌, ◌≡◌, ◌≢◌, ◌⊎◌, ◌∙◌, inl, inr, sym, ap, refl, arith, Bool, true, List,
  [], ◌∷◌, length,
}
use noisecat.Noisecat.Runners.{
  Setting, Dir, snt, rcv, Phase, copying, returned, signalled, reported, Waiting, for_first,
  for_second, to_close, finished, Timer, unset, armed, stopped, fired, Io, started, phase,
  set_phase, signal_end_of_write, push, stop, Step, ends, breaks, signals, reports, first, fires,
  second, closes, Reach, here, next, steps, Forced, stays, goes,
}
use noisecat.Noisecat.Runners.Copies.{
  sent, taken, Guarded, IsSound, Step-IsSound, handle_io-IsSound,
}

-- The steps that are left.
abbrev phase_left : Phase → ℕ
phase_left copying = 3
phase_left returned = 2
phase_left signalled = 1
phase_left reported = 0

abbrev waiting_left : Waiting → ℕ
waiting_left for_first = 4
waiting_left for_second = 2
waiting_left to_close = 1
waiting_left finished = 0

abbrev timer_left : Timer → ℕ
timer_left armed = 1
timer_left t = 0

unfoldable left : Io → ℕ
left s =
    phase_left s.snt_phase + phase_left s.rcv_phase + waiting_left s.waiting + timer_left s.timer

phase_step :
    (d : Dir) (s : Io) (p q : Phase)
    → phase d s ≡ p
    → phase_left q < phase_left p
    → left (set_phase d q s) < left s
unfolding left
phase_step snt s p q e h = omega (arith, ap phase_left e)
phase_step rcv s p q e h = omega (arith, ap phase_left e)

left-signal :
    (x : Setting) (d : Dir) (s : Io)
    → left (set_phase d signalled (signal_end_of_write x d s)) ≡ left (set_phase d signalled s)
unfolding left
left-signal x snt s = refl
left-signal x rcv s = refl

left-push :
    (d : Dir) (s : Io) → left (set_phase d reported (push d s)) ≡ left (set_phase d reported s)
unfolding left
left-push snt s = refl
left-push rcv s = refl

timer_at_most : (t : Timer) → timer_left (stop t) ≤ timer_left t
timer_at_most unset = omega arith
timer_at_most armed = omega arith
timer_at_most stopped = omega arith
timer_at_most fired = omega arith

Step-left : {x : Setting} {b : Bool} {s t : Io} → Step x b s t → left t < left s
unfolding left
Step-left (ends d s e) = phase_step d s copying returned e (omega arith)
Step-left (breaks d s e c w) = phase_step d s copying returned e (omega arith)
Step-left {x} (signals d s e) =
    omega (arith, left-signal x d s, phase_step d s returned signalled e (omega arith))
Step-left (reports d s e) =
    omega (arith, left-push d s, phase_step d s signalled reported e (omega arith))
Step-left (first d ds s e c) = omega (arith, ap waiting_left e)
Step-left (fires s e) = omega (arith, ap timer_left e)
Step-left (second d ds s e c) = omega (arith, ap waiting_left e, timer_at_most s.timer)
Step-left (closes s e) = omega (arith, ap waiting_left e)

steps-left : {x : Setting} {s : Io} (r : Reach x started s) → steps r + left s ≤ 10
unfolding left
steps-left here = omega arith
steps-left (next r st) = omega (arith, steps-left r, Step-left st)

handle_io_steps : {x : Setting} {s : Io} (r : Reach x started s) → steps r ≤ 10
handle_io_steps r = omega (arith, steps-left r)

Phase-cases : (p : Phase) → (p ≡ copying) ⊎ ((p ≡ returned) ⊎ ((p ≡ signalled) ⊎ (p ≡ reported)))
Phase-cases copying = inl refl
Phase-cases returned = inr (inl refl)
Phase-cases signalled = inr (inr (inl refl))
Phase-cases reported = inr (inr (inr refl))

set_phase-waiting : (d : Dir) (p : Phase) (s : Io) → (set_phase d p s).waiting ≡ s.waiting
set_phase-waiting snt p s = refl
set_phase-waiting rcv p s = refl

signal-waiting : (x : Setting) (d : Dir) (s : Io) → (signal_end_of_write x d s).waiting ≡ s.waiting
signal-waiting x snt s = refl
signal-waiting x rcv s = refl

Waiting-cases :
    (w : Waiting) → (w ≡ for_first) ⊎ ((w ≡ for_second) ⊎ ((w ≡ to_close) ⊎ (w ≡ finished)))
Waiting-cases for_first = inl refl
Waiting-cases for_second = inr (inl refl)
Waiting-cases to_close = inr (inr (inl refl))
Waiting-cases finished = inr (inr (inr refl))

Ch-cases : (ch : List Dir) → (ch ≡ []) ⊎ ((d : Dir) × (ds : List Dir) × (ch ≡ d ∷ ds))
Ch-cases [] = inl refl
Ch-cases (d ∷ ds) = inr (d, ds, refl)

second-Guarded :
    (w : Waiting) (t : Timer) (b : Bool) → w ≡ for_second → Guarded w t b → (t ≡ armed) ⊎ (b ≡ true)
second-Guarded for_first t b e g = absurd (cc e)
second-Guarded for_second t b e g = g
second-Guarded to_close t b e g = absurd (cc e)
second-Guarded finished t b e g = absurd (cc e)

module _ (x : Setting) (wakes : (d : Dir) → x.wakes d ≡ true) where
  -- A copy that has not reported goes on, once the timer runs or all is closed.
  copy_step :
      (d : Dir) (s : Io)
      → phase d s ≢ reported
      → (s.timer ≡ armed) ⊎ (s.is_closed ≡ true)
      → (t : Io) × Step x true s t × (t.waiting ≡ s.waiting)
  copy_step d s going g = elim (Phase-cases (phase d s)) [
    | inl e ↦ elim g [
      | inl a ↦ (record s { timer = fired; is_closed = true }, fires s a, refl)
      | inr c ↦ (set_phase d returned s, breaks d s e c (wakes d), set_phase-waiting d returned s)
    ]
    | inr (inl e) ↦ (
      set_phase d signalled (signal_end_of_write x d s),
      signals d s e,
      set_phase-waiting d signalled (signal_end_of_write x d s) ∙ signal-waiting x d s,
    )
    | inr (inr (inl e)) ↦
        (set_phase d reported (push d s), reports d s e, set_phase-waiting d reported (push d s))
    | inr (inr (inr e)) ↦ absurd (going e)
  ]

  -- Where nothing is on the channel, one copy has not reported.
  silent :
      (s : Io)
      → IsSound x s
      → s.waiting ≡ for_second
      → s.ch ≡ []
      → (d : Dir) × (phase d s ≢ reported)
  silent s h e empty = elim (Phase-cases s.snt_phase) [
    | inl p ↦ (snt, λ r. cc (p, r))
    | inr (inl p) ↦ (snt, λ r. cc (p, r))
    | inr (inr (inl p)) ↦ (snt, λ r. cc (p, r))
    | inr (inr (inr p)) ↦
        (rcv, λ r. omega (arith, h.counted, ap sent p, ap sent r, ap taken e, ap length empty))
  ]

  -- Behind the first report handleIO is never stuck.
  progress :
      (s : Io)
      → IsSound x s
      → s.waiting ≢ for_first
      → (s.waiting ≡ finished) ⊎ ((t : Io) × Step x true s t × (t.waiting ≢ for_first))
  progress s h begun = elim (Waiting-cases s.waiting) [
    | inl e ↦ absurd (begun e)
    | inr (inr (inr e)) ↦ inl e
    | inr (inr (inl e)) ↦
        inr (record s { waiting = finished; is_closed = true }, closes s e, λ x. cc x)
    | inr (inl e) ↦ elim (Ch-cases s.ch) [
      | inr (d, ds, c) ↦ inr (
        record s { waiting = to_close; ch = ds; timer = stop s.timer },
        second d ds s e c,
        λ x. cc x,
      )
      | inl empty ↦
          let (d, going) = silent s h e empty in
          let (t, st, same) =
            copy_step d s going (second-Guarded s.waiting s.timer s.is_closed e h.is_guarded) in
          inr (t, st, λ x. begun (sym same ∙ x))
    ]
  ]

  run :
      (n : ℕ) (s : Io)
      → left s < n
      → IsSound x s
      → s.waiting ≢ for_first
      → (t : Io) × Forced x s t × (t.waiting ≡ finished)
  run zero s few h begun = absurd (omega arith)
  run (suc n) s few h begun = elim (progress s h begun) [
    | inl e ↦ (s, stays s, e)
    | inr (t, st, begun') ↦
        let (u, rest, done) = run n t (omega (arith, Step-left st)) (Step-IsSound x st h) begun' in
        (u, goes st rest, done)
  ]

  -- Where closing everything wakes both copies, as between two connections: once one direction has ended
  -- and its report is taken, handleIO returns whatever the peers do: from every such state a run leads to
  -- the end in which no copy waits for its source to end, since the timer closes everything. No run has
  -- more than ten steps.
  pub handle_io_returns :
      {s : Io} (r : Reach x started s)
      → s.waiting ≢ for_first
      → (steps r ≤ 10) × (t : Io) × Forced x s t × (t.waiting ≡ finished)
  handle_io_returns {s} r begun =
      let (t, forced, back) = run (suc (left s)) s (omega arith) (handle_io-IsSound x r) begun in
      (handle_io_steps r, t, forced, back)
