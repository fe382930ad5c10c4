-- ===== src/Noisecat/Net/Serve/Drains.antt =====
-- How StartServer with -k returns.
use noisecat.Base.{
  ℕ, ◌-◌, ◌≡◌, ◌≢◌, refl, arith, true, false, List, [], ◌∷◌, ◌++◌, All, append_assoc,
}
use mathlib.Core.Path.{subst}
use noisecat.Noisecat.Runners.{Route, to_proxy, to_command, to_stdio, Dir, Io, for_first, finished}
use noisecat.Noisecat.Runners
use noisecat.Noisecat.Runners.Returns.{handle_io_returns}
use noisecat.Noisecat.Net.Serve.{
  Job, dials_proxy, runs_command, over, copies, moves, returns, Stage, accepting, waiting, returned,
  setting_of, Server, listening, stops, works, ends, Reach, Forced, stays, goes,
}
use noisecat.Noisecat.Net.Serve.Counts.{
  running, Copying, IsSound, Serve-IsSound, start_server-IsSound,
}

-- With -k a Router has a proxy or a command, and copies between two connections only.
setting_wakes : (r : Route) → r ≢ to_stdio → (d : Dir) → (setting_of r).wakes d ≡ true
setting_wakes to_proxy h d = refl
setting_wakes to_command h d = refl
setting_wakes to_stdio h d = absurd (h refl)

module _ (route : Route) (not_stdio : route ≢ to_stdio) where
  -- A Router that ends whatever the peers do.
  abbrev pub Draining : Job → Type 0
  Draining dials_proxy = ⊥
  Draining runs_command = ⊥
  Draining over = Unit
  Draining (copies s) = s.waiting ≢ for_first

  then_ : {s t u : Server} → Forced route s t → Forced route t u → Forced route s u
  then_ (stays s) g = g
  then_ (goes st f) g = goes st (then_ f g)

  abbrev with_jobs : Server → List Job → ℕ → Server
  with_jobs s js wg = record s { jobs = js; wg = wg }

  -- The steps of a Router are the server's.
  run_copy :
      (xs ys : List Job) (s : Server) (wg : ℕ) {t u : Io}
      → Runners.Forced (setting_of route) t u
      → u.waiting ≡ finished
      → Forced route (with_jobs s (xs ++ copies t ∷ ys) wg) (with_jobs s (xs ++ over ∷ ys) (wg - 1))
  run_copy xs ys s wg (Runners.stays t) e =
      goes (works xs (copies t) over ys (with_jobs s (xs ++ copies t ∷ ys) wg) refl (returns t e))
        (stays _)
  run_copy xs ys s wg (Runners.goes {s = t} {t = t'} st rest) e =
      goes
        (works xs (copies t) (copies t') ys (with_jobs s (xs ++ copies t ∷ ys) wg) refl (moves st))
        (run_copy xs ys s wg rest e)

  abbrev overs : List Job → List Job
  overs [] = []
  overs (j ∷ js) = over ∷ overs js

  -- The Routers from one on end, one behind the other.
  abbrev Drained : Server → List Job → List Job → ℕ → Type 0
  Drained s xs js wg =
      (n : ℕ) × (n ≡ wg - running js)
      × Forced route (with_jobs s (xs ++ js) wg) (with_jobs s (xs ++ overs js) n)

  regrouped :
      (s : Server) (xs js : List Job) (wg n : ℕ)
      → Forced route
          (with_jobs s ((xs ++ over ∷ []) ++ js) wg)
          (with_jobs s ((xs ++ over ∷ []) ++ overs js) n)
      → Forced route (with_jobs s (xs ++ over ∷ js) wg) (with_jobs s (xs ++ over ∷ overs js) n)
  regrouped s xs js wg n f =
      subst (λ ks. Forced route (with_jobs s (xs ++ over ∷ js) wg) (with_jobs s ks n))
        (append_assoc xs (over ∷ []) (overs js))
        (subst
          (λ ks. Forced route (with_jobs s ks wg) (with_jobs s ((xs ++ over ∷ []) ++ overs js) n))
          (append_assoc xs (over ∷ []) js) f)

  drain_jobs :
      (s : Server) (xs js : List Job) (wg : ℕ)
      → All (Copying (setting_of route)) js
      → All Draining js
      → Drained s xs js wg
  drain_jobs s xs [] wg c d = (wg, omega arith, stays _)
  drain_jobs s xs (over ∷ js) wg (c, cs) (d, ds) =
      let (n, e, f) = drain_jobs s (xs ++ over ∷ []) js wg cs ds in
      (n, omega (arith, e), regrouped s xs js wg n f)
  drain_jobs s xs (dials_proxy ∷ js) wg (c, cs) (d, ds) = absurd d
  drain_jobs s xs (runs_command ∷ js) wg (c, cs) (d, ds) = absurd d
  drain_jobs s xs (copies t ∷ js) wg (c, cs) (d, ds) =
      let (few, u, run, back) =
        handle_io_returns (setting_of route) (setting_wakes route not_stdio) c d in
      let (n, e, f) = drain_jobs s (xs ++ over ∷ []) js (wg - 1) cs ds in
      (n, omega (arith, e), then_ (run_copy xs js s wg run back) (regrouped s xs js (wg - 1) n f))

  -- From a server that waits for its Routers.
  waiting_returns :
      (s : Server)
      → IsSound (setting_of route) s
      → s.stage ≡ waiting
      → All Draining s.jobs
      → (t : Server) × Forced route s t × (t.stage ≡ returned)
  waiting_returns s h e d =
      let (n, count, f) = drain_jobs s [] s.jobs s.wg h.reached d in
      let none_left : n ≡ 0 = omega (arith, count, h.counted) in
      let t = with_jobs s (overs s.jobs) n in
      (
        record t { stage = returned; is_open = false },
        then_ f (goes (ends t e none_left) (stays _)),
        refl,
      )

  -- A StartServer with -k, whose Routers have a proxy or a command, and whose listener was closed returns whatever the peers do, once each of its
  -- Routers has taken the report of one ended direction or has returned.
  pub start_server_returns :
      {s : Server}
      → Reach route listening s
      → s.is_open ≡ false
      → All Draining s.jobs
      → (t : Server) × Forced route s t × (t.stage ≡ returned)
  start_server_returns {s} r closed d = on_stage s.stage refl
    where
      on_stage :
          (st : Stage) → s.stage ≡ st → (t : Server) × Forced route s t × (t.stage ≡ returned)
      on_stage accepting e =
          let st = stops s e closed in
          let (t, f, back) =
            waiting_returns (record s { stage = waiting })
              (Serve-IsSound route st (start_server-IsSound route r)) refl d in
          (t, goes st f, back)
      on_stage waiting e = waiting_returns s (start_server-IsSound route r) e d
      on_stage returned e = (s, stays s, e)
