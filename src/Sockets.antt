-- ===== src/Sockets.antt =====
-- The package net of the standard library as a parameter, and the one socket that a call of Dial
-- opens. A time is in nanoseconds; a deadline is what is left until it.
pub mod Toy
use noisecat.Base.{
  ◌≡◌, refl, ap, sym, Bool-cases, inl, inr, Bool, true, false, Option, none, some, Bytes, is_blank,
  if◌then◌else◌, ℤ, pos, negsuc, ltb, Result, ok, err, Outcome, ret, raise, Action, ◌>>=◌, ◌>>◌,
  pure, Stream, close,
}

abbrev pub is_positive : ℤ → Bool
is_positive (pos n) = ltb 0 n
is_positive (negsuc n) = false

-- net.Dialer
pub record Dialer (Addr : Type 0) : Type 0 where
  pub timeout : ℤ
  pub deadline : Option ℤ
  pub local_addr : Option Addr

pub record Net : Type 1 where
  pub Addr : Type 0
  pub Listener : Type 0
  -- net.ResolveTCPAddr, Dialer.Dial and net.Listen; a network and an address first.
  pub resolve_tcp_addr : Bytes → Bytes → Result Addr
  pub dial : Dialer Addr → Bytes → Bytes → Result Stream
  pub listen : Bytes → Bytes → Result Listener

pub record Socket : Type 0 where
  pub stream : Stream
  pub deadline : Option ℤ

-- What a call has opened so far.
abbrev pub World : Type 0
World = Option Socket

abbrev pub opened : Result Stream → Action World Stream
opened (ok s) w = ret s (some (record { stream = s; deadline = none }))
opened (err e) w = raise e w

abbrev pub on_socket : (Socket → Socket) → World → World
on_socket f none = none
on_socket f (some k) = some (f k)

-- SetDeadline
abbrev pub set_deadline : Option ℤ → Action World (Unit {0})
set_deadline d w = ret tt (on_socket (λ k. record k { deadline = d }) w)

abbrev pub set_stream : Stream → World → World
set_stream s w = on_socket (λ k. record k { stream = s }) w

-- A handshake over the socket; where it fails, the socket is closed.
module _ {C A D : Type 0} (conn : C → Stream) (done : A → C → D) where
  unfoldable pub concluded : World → Outcome C A → Outcome World D
  concluded w (ret a c) = ret (done a c) (set_stream (conn c) w)
  concluded w (raise e c) = raise e (set_stream (close (conn c)) w)

  unfoldable pub shaken : Action C A → C → Action World D
  unfolding concluded
  shaken shake c w = concluded w (shake c)

  -- The same, with the deadline cleared once the handshake has succeeded.
  unfoldable pub shaken_cleared : Action C A → C → Action World D
  unfolding shaken
  shaken_cleared shake c = do d ← shaken shake c; set_deadline none; pure d

-- An address that was looked up, or its error.
abbrev pub looked_up : {A : Type 0} → Result A → Action World (Option A)
looked_up (ok a) w = ret (some a) w
looked_up (err e) w = raise e w

module _ (n : Net) where
  open n use {Addr, resolve_tcp_addr}

  abbrev pub dialer_with : ℤ → Option Addr → Dialer Addr
  dialer_with timeout local = record { timeout = timeout; deadline = none; local_addr = local }

  -- `if localAddr != "" { ... }`
  unfoldable pub some_local : Bytes → Bytes → Action World (Option Addr)
  some_local network local w =
      if is_blank local then ret none w else looked_up (resolve_tcp_addr network local) w

-- A Dial that has succeeded leaves the connection's own socket, without a deadline; one that has failed
-- has opened none, or has closed it.
abbrev pub Settled : {C : Type 0} → (C → Stream) → Outcome World C → Type 0
Settled conn (ret c w) = w ≡ some (record { stream = conn c; deadline = none })
Settled conn (raise e none) = Unit
Settled conn (raise e (some k)) = k.stream.closed ≡ true

close-closed : (s : Stream) → (close s).closed ≡ true
unfolding close
close-closed s = refl

-- What a fresh socket's handshake leaves.
pub shaken-Settled :
    {C A D : Type 0} (conn : C → Stream) (conn' : D → Stream) (done : A → C → D)
    (shake : Action C A) (c : C) (s : Stream)
    → ((a : A) (c : C) → conn c ≡ conn' (done a c))
    → Settled conn' (shaken conn done shake c (some (record { stream = s; deadline = none })))
unfolding shaken
shaken-Settled {C} {A} {D} conn conn' done shake c s same = on_outcome (shake c)
  where
    on_outcome :
        (o : Outcome C A)
        → Settled conn' (concluded conn done (some (record { stream = s; deadline = none })) o)
    on_outcome (ret a d) = ap (λ x. some (record { stream = x; deadline = none })) (same a d)
    on_outcome (raise e d) = close-closed (conn d)

pub shaken_cleared-Settled :
    {C A D : Type 0} (conn : C → Stream) (conn' : D → Stream) (done : A → C → D)
    (shake : Action C A) (c : C) (k : Socket)
    → ((a : A) (c : C) → conn c ≡ conn' (done a c))
    → Settled conn' (shaken_cleared conn done shake c (some k))
unfolding shaken_cleared
shaken_cleared-Settled {C} {A} {D} conn conn' done shake c k same = on_outcome (shake c)
  where
    on_outcome :
        (o : Outcome C A)
        → Settled conn' (
            (◌>>=◌ (λ w. concluded conn done (some k) o) (λ d. set_deadline none >> pure d))
              (some k))
    on_outcome (ret a d) = ap (λ x. some (record { stream = x; deadline = none })) (same a d)
    on_outcome (raise e d) = close-closed (conn d)

-- A step that opens nothing, before a Dial's others.
abbrev pub Unopened : {A : Type 0} → Outcome World A → Type 0
Unopened (ret a w) = w ≡ none
Unopened (raise e w) = w ≡ none

module _ {A C : Type 0} (conn : C → Stream) where
  pub Unopened-Settled :
      (o : Outcome World A) (next : A → Action World C)
      → Unopened o
      → ((a : A) → Settled conn (next a none))
      → Settled conn ((◌>>=◌ (λ w. o) next) none)
  Unopened-Settled (ret a none) next u h = h a
  Unopened-Settled (ret a (some k)) next u h = absurd (cc u)
  Unopened-Settled (raise e none) next u h = tt
  Unopened-Settled (raise e (some k)) next u h = absurd (cc u)

pub looked_up-Unopened : {A : Type 0} (r : Result A) → Unopened (looked_up r none)
looked_up-Unopened (ok a) = refl
looked_up-Unopened (err e) = refl

pub some_local-Unopened :
    (n : Net) (network local : Bytes) → Unopened (some_local n network local none)
unfolding some_local
some_local-Unopened n network local = elim (Bool-cases (is_blank local)) [
  | inl blank ↦ rw blank refl
  | inr given ↦ rw given (looked_up-Unopened (n.resolve_tcp_addr network local))
]

-- A socket that was accepted, and a connection laid over it.
pub accepted-Settled :
    {C : Type 0} (conn : C → Stream) (over : Stream → C) (r : Result Stream)
    → ((s : Stream) → conn (over s) ≡ s)
    → Settled conn ((opened r >>= λ s. pure (over s)) none)
accepted-Settled conn over (ok s) same =
    ap (λ x. some (record { stream = x; deadline = none })) (sym (same s))
accepted-Settled conn over (err e) same = tt
