-- ===== src/Noisecat/Net/Serve.antt =====
-- StartServer of pkg/noisecat/net.go with -k, as steps of its accept loop, its signal handler and the
-- Routers of the accepted connections. proxyConn's net.Dial is taken to end by itself, a command is not.
pub mod Counts
pub mod Drains
use noisecat.Base.{ℕ, ◌+◌, ◌-◌, ◌≡◌, Bool, true, false, List, [], ◌∷◌, ◌++◌}
use noisecat.Noisecat.Runners.{
  Route, to_proxy, to_command, to_stdio, Io, Setting, proxied, stdio, started, finished,
}
use noisecat.Noisecat.Runners

-- A Router: proxyConn before handleIO, executeCmd, handleIO, and behind its return.
pub data Job : Type 0 where
  dials_proxy runs_command over : Job
  copies : Io → Job

unfoldable pub job_of : Route → Job
job_of to_proxy = dials_proxy
job_of to_command = runs_command
job_of to_stdio = copies started

-- What handleIO is called with: the connection to the proxy, or os.Stdout and os.Stdin. A command's
-- Router does not call it.
abbrev pub setting_of : Route → Setting
setting_of to_proxy = proxied
setting_of to_command = proxied
setting_of to_stdio = stdio

-- A step of one Router; the Boolean is that of Runners.Step.
pub data Work (x : Setting) : Bool → Job → Job → Type 0 where
  connects : Work x true dials_proxy (copies started)
  unconnected : Work x true dials_proxy over
  exits : Work x false runs_command over
  moves : {b : Bool} {s t : Io} → Runners.Step x b s t → Work x b (copies s) (copies t)
  returns : (s : Io) → s.waiting ≡ finished → Work x true (copies s) over

pub data Stage : Type 0 where
  accepting waiting returned : Stage

pub record Server : Type 0 where
  pub jobs : List Job
  pub wg : ℕ
  pub is_open : Bool
  pub stage : Stage
  pub interrupted : Bool

abbrev pub listening : Server
listening = record { jobs = []; wg = 0; is_open = true; stage = accepting; interrupted = false }

-- `defer wg.Done()`
abbrev pub done : Job → ℕ → ℕ
done over wg = wg - 1
done j wg = wg

-- `route` is the Router's choice, which the configuration makes.
pub data Serve (route : Route) : Bool → Server → Server → Type 0 where
  accepts :
      (s : Server)
      → s.stage ≡ accepting
      → s.is_open ≡ true
      → Serve route false s (record s { jobs = s.jobs ++ job_of route ∷ []; wg = s.wg + 1 })
  -- Accept fails, by itself or since the listener is closed.
  fails : (s : Server) → s.stage ≡ accepting → Serve route false s (record s { stage = waiting })
  stops :
      (s : Server)
      → s.stage ≡ accepting
      → s.is_open ≡ false
      → Serve route true s (record s { stage = waiting })
  interrupts :
      (s : Server)
      → s.interrupted ≡ false
      → Serve route false s (record s { interrupted = true; is_open = false })
  works :
      {b : Bool} (xs : List Job) (j j' : Job) (ys : List Job) (s : Server)
      → s.jobs ≡ xs ++ j ∷ ys
      → Work (setting_of route) b j j'
      → Serve route b s (record s { jobs = xs ++ j' ∷ ys; wg = done j' s.wg })
  -- wg.Wait returns, and the deferred Close runs.
  ends :
      (s : Server)
      → s.stage ≡ waiting
      → s.wg ≡ 0
      → Serve route true s (record s { stage = returned; is_open = false })

module _ (route : Route) where
  pub data Reach (s : Server) : Server → Type 0 where
    here : Reach s s
    next : {b : Bool} {t u : Server} → Reach s t → Serve route b t u → Reach s u

  -- A run of steps that come whatever the peers do.
  pub data Forced : Server → Server → Type 0 where
    stays : (s : Server) → Forced s s
    goes : {s t u : Server} → Serve route true s t → Forced t u → Forced s u
