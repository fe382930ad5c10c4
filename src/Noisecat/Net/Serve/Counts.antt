-- ===== src/Noisecat/Net/Serve/Counts.antt =====
-- What holds in every reachable state of StartServer with -k.
use noisecat.Base.{
  ℕ, ◌+◌, ◌-◌, ◌≡◌, ◌∙◌, refl, sym, ap, arith, Bool, false, List, [], ◌∷◌, ◌++◌, All, All-append,
}
use mathlib.Core.Path.{subst}
use noisecat.Noisecat.Runners.{Route, to_proxy, to_command, to_stdio, Setting, started}
use noisecat.Noisecat.Runners
use noisecat.Noisecat.Net.Serve.{
  Job, dials_proxy, runs_command, over, copies, job_of, setting_of, Work, connects, unconnected,
  exits, moves, returns, Stage, accepting, waiting, returned, Server, listening, done, Serve,
  accepts, fails, stops, interrupts, works, ends, Reach, here, next,
}

abbrev pub is_running : Job → ℕ
is_running over = 0
is_running j = 1

abbrev pub running : List Job → ℕ
running [] = 0
running (j ∷ js) = is_running j + running js

running-append : (xs ys : List Job) → running (xs ++ ys) ≡ running xs + running ys
running-append [] ys = omega arith
running-append (x ∷ xs) ys = omega (arith, running-append xs ys)

-- A Router that copies is in a state that handleIO reaches.
abbrev pub Copying : Setting → Job → Type 0
Copying x dials_proxy = Unit
Copying x runs_command = Unit
Copying x over = Unit
Copying x (copies s) = Runners.Reach x started s

abbrev pub Closing : Stage → Bool → ℕ → Type 0
Closing accepting is_open wg = Unit
Closing waiting is_open wg = Unit
Closing returned is_open wg = (is_open ≡ false) × (wg ≡ 0)

-- The WaitGroup counts the Routers that have not returned, each is in a state that handleIO reaches,
-- and once StartServer has returned there is none and the listener is closed.
pub record IsSound (x : Setting) (s : Server) : Type 0 where
  pub counted : s.wg ≡ running s.jobs
  pub reached : All (Copying x) s.jobs
  pub closing : Closing s.stage s.is_open s.wg

listening-IsSound : (x : Setting) → IsSound x listening
listening-IsSound x = record { counted = refl; reached = tt; closing = tt }

-- A step of one Router.
Work-Copying : {x : Setting} {b : Bool} {j j' : Job} → Work x b j j' → Copying x j → Copying x j'
Work-Copying connects h = Runners.here
Work-Copying unconnected h = tt
Work-Copying exits h = tt
Work-Copying (moves st) h = Runners.next h st
Work-Copying (returns s e) h = tt

Work-running :
    {x : Setting} {b : Bool} {j j' : Job} (n : ℕ)
    → Work x b j j'
    → (is_running j ≡ 1) × (done j' (n + 1) ≡ n + is_running j')
Work-running n connects = omega arith
Work-running n unconnected = omega arith
Work-running n exits = omega arith
Work-running n (moves st) = omega arith
Work-running n (returns s e) = omega arith

job_of-Copying : (r : Route) → Copying (setting_of r) (job_of r)
unfolding job_of
job_of-Copying to_proxy = tt
job_of-Copying to_command = tt
job_of-Copying to_stdio = Runners.here

job_of-running : (r : Route) → is_running (job_of r) ≡ 1
unfolding job_of
job_of-running to_proxy = refl
job_of-running to_command = refl
job_of-running to_stdio = refl

All-change :
    (x : Setting) (xs : List Job) (j j' : Job) (ys : List Job)
    → (Copying x j → Copying x j')
    → All (Copying x) (xs ++ j ∷ ys)
    → All (Copying x) (xs ++ j' ∷ ys)
All-change x [] j j' ys f (h, hs) = (f h, hs)
All-change x (k ∷ xs) j j' ys f (h, hs) = (h, All-change x xs j j' ys f hs)

done-zero : (j : Job) (n : ℕ) → n ≡ 0 → done j n ≡ 0
done-zero dials_proxy n e = e
done-zero runs_command n e = e
done-zero over n e = omega arith
done-zero (copies s) n e = e

worked-Closing :
    (st : Stage) (is_open : Bool) (j : Job) (wg : ℕ)
    → Closing st is_open wg
    → Closing st is_open (done j wg)
worked-Closing accepting is_open j wg h = tt
worked-Closing waiting is_open j wg h = tt
worked-Closing returned is_open j wg (h, e) = (h, done-zero j wg e)

closed-Closing :
    (st : Stage) (is_open : Bool) (wg : ℕ) → Closing st is_open wg → Closing st false wg
closed-Closing accepting is_open wg h = tt
closed-Closing waiting is_open wg h = tt
closed-Closing returned is_open wg (h, e) = (refl, e)

worked-counted :
    {x : Setting} {b : Bool} (xs : List Job) (j j' : Job) (ys : List Job) (wg : ℕ)
    → Work x b j j'
    → wg ≡ running (xs ++ j ∷ ys)
    → done j' wg ≡ running (xs ++ j' ∷ ys)
worked-counted xs j j' ys wg w e =
    let (one, count) = Work-running (wg - 1) w in
    let same : wg - 1 + 1 ≡ wg = omega (arith, e, running-append xs (j ∷ ys), one) in
    ap (done j') (sym same)
    ∙ omega (arith, count, e, one, running-append xs (j ∷ ys), running-append xs (j' ∷ ys))

module _ (route : Route) where
  pub Serve-IsSound :
      {b : Bool} {s t : Server}
      → Serve route b s t
      → IsSound (setting_of route) s
      → IsSound (setting_of route) t
  Serve-IsSound (accepts s e o) h = record {
    counted =
        omega (arith, h.counted, running-append s.jobs (job_of route ∷ []), job_of-running route);
    reached =
        All-append (Copying (setting_of route)) s.jobs (job_of route ∷ []) h.reached
          (job_of-Copying route, tt);
    closing = subst (λ st. Closing st s.is_open (s.wg + 1)) (sym e) tt;
  }
  Serve-IsSound (fails s e) h = record { counted = h.counted; reached = h.reached; closing = tt }
  Serve-IsSound (stops s e c) h = record { counted = h.counted; reached = h.reached; closing = tt }
  Serve-IsSound (interrupts s e) h = record {
    counted = h.counted;
    reached = h.reached;
    closing = closed-Closing s.stage s.is_open s.wg h.closing;
  }
  Serve-IsSound (works xs j j' ys s e w) h = record {
    counted = worked-counted xs j j' ys s.wg w (h.counted ∙ ap running e);
    reached =
        All-change (setting_of route) xs j j' ys (Work-Copying w)
          (subst (All (Copying (setting_of route))) e h.reached);
    closing = worked-Closing s.stage s.is_open j' s.wg h.closing;
  }
  Serve-IsSound (ends s e c) h = record {
    counted = h.counted;
    reached = h.reached;
    closing = (refl, c);
  }

  -- In every reachable state of StartServer with -k the WaitGroup counts the Routers that have not
  -- returned, and those that copy are in a state that handleIO reaches; and once StartServer has
  -- returned, every Router has and the listener is closed.
  pub start_server-IsSound : {s : Server} → Reach route listening s → IsSound (setting_of route) s
  start_server-IsSound here = listening-IsSound (setting_of route)
  start_server-IsSound (next r st) = Serve-IsSound st (start_server-IsSound r)
