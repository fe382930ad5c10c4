-- ===== src/Noisecat/Runners.antt =====
-- pkg/noisecat/runners.go: what a connection is routed to, and handleIO as steps of its two copies,
-- its own goroutine and its timer. The bytes that io.Copy moves are left out, and so is what is logged.
-- Closing has signalEndOfWrite and the order of fullClose.
pub mod Copies
pub mod Returns
pub mod Closing
pub mod Idle
mod Tests
use noisecat.Base.{
  ℕ, suc, Bool, true, false, Option, none, some, ◌≡◌, ◌++◌, List, [], ◌∷◌, Bytes, is_blank,
  if◌then◌else◌, text, wrapped, Result, ok, err,
}
use noisecat.Noisecat.Runners.Closing.{Endpoint, Ending, signal_end}
use noisecat.Results.{◌>>=◌}

pub data Route : Type 0 where
  to_proxy to_command to_stdio : Route

-- Router
unfoldable pub router : Bytes → Bytes → Route
router proxy command =
    if is_blank proxy then (if is_blank command then to_stdio else to_command) else to_proxy

-- The command line of executeCmd; `parse` is shellwords.Parse.
unfoldable pub command_line : (Bytes → Result (List Bytes)) → Bytes → Result (Bytes × List Bytes)
command_line parse command = do
  args ← wrapped "can't parse -e command" (parse command)
  elim args [ [] ↦ err (text "can't parse -e command: empty") | arg ∷ rest ↦ ok (arg, rest) ]

-- The directions: "SNT" from the reader to the connection, "RCV" from the connection to the writer.
pub data Dir : Type 0 where
  snt rcv : Dir

-- A copy: io.Copy runs, has returned, signalEndOfWrite was called, the progress is on the channel.
pub data Phase : Type 0 where
  copying returned signalled reported : Phase

-- The goroutine of handleIO, at its receives and at the last fullClose.
pub data Waiting : Type 0 where
  for_first for_second to_close finished : Waiting

pub data Timer : Type 0 where
  unset armed stopped fired : Timer

-- What handleIO is called with. `wakes` says of a direction whether closing everything makes its copy
-- return: net.Conn promises it; os.Stdin and os.Stdout do not, a call that blocks on them goes on.
pub record Setting : Type 0 where
  pub conn : Endpoint
  pub writer : Endpoint
  pub wakes : Dir → Bool

-- The connection to the proxy is the writer and the reader; every connection has a CloseWrite. What that
-- does is the connection's: over KCP, which has none, it closes (Raw.Dial.close_write).
abbrev pub proxied : Setting
proxied = record {
  conn = record { id = 0; is_closer = true; half_closes = true };
  writer = record { id = 1; is_closer = true; half_closes = true };
  wakes = λ d. true;
}

-- os.Stdout and os.Stdin
abbrev pub stdio : Setting
stdio = record {
  conn = record { id = 0; is_closer = true; half_closes = true };
  writer = record { id = 1; is_closer = true; half_closes = false };
  wakes = λ d. false;
}

-- The state; `conn_end` and `writer_end` are what signalEndOfWrite did to them, `is_closed` says that
-- fullClose ran.
pub record Io : Type 0 where
  pub snt_phase : Phase
  pub rcv_phase : Phase
  pub conn_end : Option Ending
  pub writer_end : Option Ending
  pub ch : List Dir
  pub waiting : Waiting
  pub timer : Timer
  pub is_closed : Bool

abbrev pub started : Io
started = record {
  snt_phase = copying;
  rcv_phase = copying;
  conn_end = none;
  writer_end = none;
  ch = [];
  waiting = for_first;
  timer = unset;
  is_closed = false;
}

abbrev pub phase : Dir → Io → Phase
phase snt s = s.snt_phase
phase rcv s = s.rcv_phase

abbrev pub set_phase : Dir → Phase → Io → Io
set_phase snt p s = record s { snt_phase = p }
set_phase rcv p s = record s { rcv_phase = p }

-- signalEndOfWrite(dst)
abbrev pub signal_end_of_write : Setting → Dir → Io → Io
signal_end_of_write x snt s = record s { conn_end = some (signal_end x.conn) }
signal_end_of_write x rcv s = record s { writer_end = some (signal_end x.writer) }

abbrev pub push : Dir → Io → Io
push d s = record s { ch = s.ch ++ d ∷ [] }

-- timer.Stop
abbrev pub stop : Timer → Timer
stop armed = stopped
stop t = t

-- A step; the Boolean says that it comes whatever the peers do: `ends` waits for a copy to end or to
-- fail by itself, `breaks` is its error once everything is closed, where that wakes it.
pub data Step (x : Setting) : Bool → Io → Io → Type 0 where
  ends : (d : Dir) (s : Io) → phase d s ≡ copying → Step x false s (set_phase d returned s)
  breaks :
      (d : Dir) (s : Io)
      → phase d s ≡ copying
      → s.is_closed ≡ true
      → x.wakes d ≡ true
      → Step x true s (set_phase d returned s)
  signals :
      (d : Dir) (s : Io)
      → phase d s ≡ returned
      → Step x true s (set_phase d signalled (signal_end_of_write x d s))
  reports :
      (d : Dir) (s : Io) → phase d s ≡ signalled → Step x true s (set_phase d reported (push d s))
  first :
      (d : Dir) (ds : List Dir) (s : Io)
      → s.waiting ≡ for_first
      → s.ch ≡ d ∷ ds
      → Step x true s (record s { waiting = for_second; ch = ds; timer = armed })
  fires : (s : Io) → s.timer ≡ armed → Step x true s (record s { timer = fired; is_closed = true })
  second :
      (d : Dir) (ds : List Dir) (s : Io)
      → s.waiting ≡ for_second
      → s.ch ≡ d ∷ ds
      → Step x true s (record s { waiting = to_close; ch = ds; timer = stop s.timer })
  closes :
      (s : Io)
      → s.waiting ≡ to_close
      → Step x true s (record s { waiting = finished; is_closed = true })

pub data Reach (x : Setting) (s : Io) : Io → Type 0 where
  here : Reach x s s
  next : {b : Bool} {t u : Io} → Reach x s t → Step x b t u → Reach x s u

abbrev pub steps : {x : Setting} {s t : Io} → Reach x s t → ℕ
steps here = 0
steps (next r st) = suc (steps r)

-- A run of steps that come whatever the peers do.
pub data Forced (x : Setting) : Io → Io → Type 0 where
  stays : (s : Io) → Forced x s s
  goes : {s t u : Io} → Step x true s t → Forced x t u → Forced x s u
