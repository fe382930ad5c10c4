-- ===== src/Raw/Dial/Race/Returns.antt =====
-- The runs of DialWithDialer under a time limit.
use noisecat.Base.{
  ℕ, ◌+◌, ◌≤◌, ◌<◌, ◌≡◌, Bool-cases, inl, inr, refl, sym, ap, arith, Bool, true, false, List, [],
  ◌∷◌, ◌++◌, length, length-append, All, All-append, if◌then◌else◌,
}
use mathlib.Core.Path.{subst}
use noisecat.Raw.Dial.Race.{
  Forced, stays, goes, HasReturned, Report, completes, fails, times_out, Caller, dialing, receiving,
  dial_failed, returned, Worker, idle, shaking, ended, Race, armed, report_of, ends_badly, capacity,
  Step, connects, refused, fires, shakes, receives, Reach, here, next, steps,
}

-- Who has sent a report.
abbrev pub Told : Worker → Bool → Report → Type 0
Told w fired completes = w ≡ ended true
Told w fired fails = w ≡ ended false
Told w fired times_out = fired ≡ true

abbrev pub sent_by : Worker → ℕ
sent_by (ended good) = 1
sent_by w = 0

abbrev pub sent_at : Bool → ℕ
sent_at fired = if fired then 1 else 0

abbrev pub taken_by : Caller → ℕ
taken_by (returned r) = 1
taken_by c = 0

-- What the caller's state goes with: the worker starts behind the dialing, the result is a report that
-- was sent, and the socket is closed again unless the result is the handshake's success.
abbrev pub Fits : Worker → Bool → Bool → Caller → Type 0
Fits w fired closed dialing = (w ≡ idle) × (closed ≡ false)
Fits w fired closed dial_failed = w ≡ idle
Fits w fired closed receiving = closed ≡ false
Fits w fired closed (returned r) = Told w fired r × (closed ≡ ends_badly r)

pub record IsSound (s : Race) : Type 0 where
  pub counted : sent_by s.worker + sent_at s.has_fired ≡ taken_by s.caller + length s.ch
  pub told : All (Told s.worker s.has_fired) s.ch
  pub fits : Fits s.worker s.has_fired s.is_closed s.caller

armed-IsSound : IsSound armed
armed-IsSound = record { counted = refl; told = tt; fits = (refl, refl) }

-- A report stays true when its sender moves on.
fired-Told : (w : Worker) (b : Bool) (r : Report) → Told w b r → Told w true r
fired-Told w b completes h = h
fired-Told w b fails h = h
fired-Told w b times_out h = refl

ended-Told :
    (w w' : Worker) (b : Bool) (r : Report)
    → ((good : Bool) → w ≡ ended good → w' ≡ ended good)
    → Told w b r
    → Told w' b r
ended-Told w w' b completes keep h = keep true h
ended-Told w w' b fails keep h = keep false h
ended-Told w w' b times_out keep h = h

All-map :
    (P Q : Report → Type 0) (xs : List Report) → ((x : Report) → P x → Q x) → All P xs → All Q xs
All-map P Q [] f h = tt
All-map P Q (x ∷ xs) f (h, hs) = (f x h, All-map P Q xs f hs)

fired-Fits : (w : Worker) (b closed : Bool) (c : Caller) → Fits w b closed c → Fits w true closed c
fired-Fits w b closed dialing h = h
fired-Fits w b closed dial_failed h = h
fired-Fits w b closed receiving h = h
fired-Fits w b closed (returned r) (h, e) = (fired-Told w b r h, e)

ended-Fits :
    (w w' : Worker) (b closed : Bool) (c : Caller)
    → w ≡ shaking
    → Fits w b closed c
    → Fits w' b closed c
ended-Fits w w' b closed dialing e h = absurd (cc (e, h.0))
ended-Fits w w' b closed dial_failed e h = absurd (cc (e, h))
ended-Fits w w' b closed receiving e h = h
ended-Fits w w' b closed (returned r) e (h, c) =
    (ended-Told w w' b r (λ good f. absurd (cc (e, f))) h, c)

report-Told : (good b : Bool) → Told (ended good) b (report_of good)
report-Told true b = refl
report-Told false b = refl

length-snoc : (rs : List Report) (r : Report) → length (rs ++ r ∷ []) ≡ length rs + 1
length-snoc rs r = length-append rs (r ∷ [])

connecting : (s : Race) → s.caller ≡ dialing → IsSound s → (s.worker ≡ idle) × (s.is_closed ≡ false)
connecting s e h = subst (Fits s.worker s.has_fired s.is_closed) e h.fits

Step-IsSound : {b : Bool} {s t : Race} → Step b s t → IsSound s → IsSound t
Step-IsSound (connects s e) h =
    let (w, open_still) = connecting s e h in
    record {
      counted = omega (arith, h.counted, ap taken_by e, ap sent_by w);
      told =
          All-map (Told s.worker s.has_fired) (Told shaking s.has_fired) s.ch
            (λ r t. ended-Told s.worker shaking s.has_fired r (λ good f. absurd (cc (w, f))) t)
            h.told;
      fits = open_still;
    }
Step-IsSound (refused s e) h =
    let (w, open_still) = connecting s e h in
    record { counted = omega (arith, h.counted, ap taken_by e); told = h.told; fits = w }
Step-IsSound (fires s e room) h = record {
  counted = omega (arith, h.counted, ap sent_at e, length-snoc s.ch times_out);
  told =
      All-append (Told s.worker true) s.ch (times_out ∷ [])
        (All-map (Told s.worker s.has_fired) (Told s.worker true) s.ch
          (fired-Told s.worker s.has_fired) h.told)
        (refl, tt);
  fits = fired-Fits s.worker s.has_fired s.is_closed s.caller h.fits;
}
Step-IsSound (shakes good s e room) h = record {
  counted = omega (arith, h.counted, ap sent_by e, length-snoc s.ch (report_of good));
  told =
      All-append (Told (ended good) s.has_fired) s.ch (report_of good ∷ [])
        (All-map (Told s.worker s.has_fired) (Told (ended good) s.has_fired) s.ch
          (λ r t. ended-Told s.worker (ended good) s.has_fired r (λ g f. absurd (cc (e, f))) t)
          h.told)
        (report-Told good s.has_fired, tt);
  fits = ended-Fits s.worker (ended good) s.has_fired s.is_closed s.caller e h.fits;
}
Step-IsSound (receives r rs s e c) h =
    let told : Told s.worker s.has_fired r × All (Told s.worker s.has_fired) rs =
      subst (All (Told s.worker s.has_fired)) c h.told in
    record {
      counted = omega (arith, h.counted, ap taken_by e, ap length c);
      told = told.1;
      fits = (told.0, refl);
    }

Reach-IsSound : {s : Race} → Reach armed s → IsSound s
Reach-IsSound here = armed-IsSound
Reach-IsSound (next r st) = Step-IsSound st (Reach-IsSound r)

sent_by_bounds : (w : Worker) → sent_by w ≤ 1
sent_by_bounds idle = omega arith
sent_by_bounds shaking = omega arith
sent_by_bounds (ended good) = omega arith

sent_at_bounds : (b : Bool) → sent_at b ≤ 1
sent_at_bounds true = omega arith
sent_at_bounds false = omega arith

-- Until it has sent, the timer and the worker find room on the channel.
fires_room : (s : Race) → IsSound s → s.has_fired ≡ false → length s.ch < capacity
fires_room s h e = omega (arith, h.counted, ap sent_at e, sent_by_bounds s.worker)

-- Under a time limit DialWithDialer has, in every reachable state, room on its channel for each sender
-- that has not sent, so that neither the timer nor the handshake's goroutine is ever stuck; and when it
-- returns, its result is a report that was sent, and the socket is open exactly where that is the
-- handshake's success.
pub race-IsSound :
    {s : Race}
    → Reach armed s
    → (s.has_fired ≡ false → length s.ch < capacity)
      × (s.worker ≡ shaking → length s.ch < capacity)
      × ((r : Report)
          → s.caller ≡ returned r
          → Told s.worker s.has_fired r × (s.is_closed ≡ ends_badly r))
race-IsSound {s} run =
    let h = Reach-IsSound run in
    (
      fires_room s h,
      λ e. omega (arith, h.counted, ap sent_by e, sent_at_bounds s.has_fired),
      λ r e. subst (Fits s.worker s.has_fired s.is_closed) e h.fits,
    )

-- How far a state is.
abbrev progress : Caller → ℕ
progress dialing = 0
progress dial_failed = 1
progress receiving = 1
progress (returned r) = 2

steps-eq :
    {s : Race}
    → (run : Reach armed s) → steps run ≡ progress s.caller + sent_by s.worker + sent_at s.has_fired
steps-eq here = refl
steps-eq (next run (connects s e)) =
    let (w, o) = connecting s e (Reach-IsSound run) in
    omega (arith, steps-eq run, ap progress e, ap sent_by w)
steps-eq (next run (refused s e)) = omega (arith, steps-eq run, ap progress e)
steps-eq (next run (fires s e room)) = omega (arith, steps-eq run, ap sent_at e)
steps-eq (next run (shakes good s e room)) = omega (arith, steps-eq run, ap sent_by e)
steps-eq (next run (receives r rs s e c)) = omega (arith, steps-eq run, ap progress e)

progress_bounds : (c : Caller) → progress c ≤ 2
progress_bounds dialing = omega arith
progress_bounds dial_failed = omega arith
progress_bounds receiving = omega arith
progress_bounds (returned r) = omega arith

steps-le : {s : Race} → (run : Reach armed s) → steps run ≤ 4
steps-le {s} run = omega (
  arith,
  steps-eq run,
  progress_bounds s.caller,
  sent_by_bounds s.worker,
  sent_at_bounds s.has_fired,
)

-- A caller that receives, once the timer has fired, finds a report.
receives_next :
    (s : Race)
    → IsSound s
    → s.caller ≡ receiving
    → s.has_fired ≡ true
    → (t : Race) × Forced s t × HasReturned t.caller
receives_next s h e fired = on_channel s.ch refl
  where
    on_channel : (ch : List Report) → s.ch ≡ ch → (t : Race) × Forced s t × HasReturned t.caller
    on_channel [] c =
        absurd (omega (arith, h.counted, ap taken_by e, ap sent_at fired, ap length c))
    on_channel (r ∷ rs) c = (
      record s { caller = returned r; ch = rs; is_closed = ends_badly r },
      goes (receives r rs s e c) (stays _),
      tt,
    )

receiving_returns :
    (s : Race) → IsSound s → s.caller ≡ receiving → (t : Race) × Forced s t × HasReturned t.caller
receiving_returns s h e = elim (Bool-cases s.has_fired) [
  | inl fired ↦ receives_next s h e fired
  | inr waits ↦
      let step = fires s waits (fires_room s h waits) in
      let (t, run, back) =
        receives_next (record s { has_fired = true; ch = s.ch ++ times_out ∷ [] })
          (Step-IsSound step h) e refl in
      (t, goes step run, back)
]

-- From every reachable state DialWithDialer returns in steps that come whatever the peer does, also
-- where the handshake never ends; and no run has more than four steps.
pub race_returns :
    {s : Race}
    → (run : Reach armed s) → ((t : Race) × Forced s t × HasReturned t.caller) × (steps run ≤ 4)
race_returns {s} run = (on_caller s.caller refl, steps-le run)
  where
    on_caller : (c : Caller) → s.caller ≡ c → (t : Race) × Forced s t × HasReturned t.caller
    on_caller dialing e =
        let step = connects s e in
        let (t, rest, back) =
          receiving_returns (record s { caller = receiving; worker = shaking })
            (Step-IsSound step (Reach-IsSound run)) refl in
        (t, goes step rest, back)
    on_caller receiving e = receiving_returns s (Reach-IsSound run) e
    on_caller dial_failed e = (s, stays s, subst HasReturned (sym e) tt)
    on_caller (returned r) e = (s, stays s, subst HasReturned (sym e) tt)
