-- ===== src/Base/Actions.antt =====
-- Errors as values, and methods as actions on a state.
use Prim.Native.String.{String}
use mathlib.Core.List.{List}
use Prim.Native.Nat.{ℕ}
use mathlib.Core.Option.{Option, none, some}
use mathlib.Core.Bool.{Bool, true, false}

-- Go's `error`. `text` is errors.New, `wrap` is fmt.Errorf with %w (operands that are only printed
-- are left out, but for `detailed`), `panics` a run-time panic.
pub data Error : Type 0 where
  eof unexpected_eof conn_closed write_failed : Error
  text : String → Error
  detailed : String → List ℕ → Error
  wrap : String → Error → Error
  panics : String → Error

-- Go's (value, error) pair: a value is used only where the error is nil.
pub data Result {ℓ} (A : Type ℓ) : Type ℓ where
  ok : A → Result A
  err : Error → Result A

abbrev pub wrapped {ℓ} : {A : Type ℓ} → String → Result A → Result A
wrapped msg (ok a) = ok a
wrapped msg (err e) = err (wrap msg e)

-- How a method ends, with its receiver, which it may have changed also where it fails.
pub data Outcome (S A : Type 0) : Type 0 where
  ret : A → S → Outcome S A
  raise : Error → S → Outcome S A

abbrev pub Action : Type 0 → Type 0 → Type 0
Action S A = S → Outcome S A

module _ {S A : Type 0} where
  abbrev pub pure : A → Action S A
  pure a s = ret a s

  abbrev pub fail : Error → Action S A
  fail e s = raise e s

  abbrev pub lift : Result A → Action S A
  lift (ok a) s = ret a s
  lift (err e) s = raise e s

  abbrev pub or_fail : Option A → Error → Action S A
  or_fail none e s = raise e s
  or_fail (some a) e s = ret a s

  -- `if err != nil { return fmt.Errorf("...: %w", err) }`
  abbrev pub wrapping : String → Action S A → Action S A
  wrapping msg m s = elim (m s) [ ret a s' ↦ ret a s' | raise e s' ↦ raise (wrap msg e) s' ]

  -- The receiver that a method leaves behind.
  abbrev pub after : Outcome S A → S
  after (ret a s) = s
  after (raise e s) = s

infixl 5 ◌>>=◌ ◌>>◌
abbrev pub ◌>>=◌ : {S A B : Type 0} → Action S A → (A → Action S B) → Action S B
◌>>=◌ m f s = elim (m s) [ ret a s' ↦ f a s' | raise e s' ↦ raise e s' ]

abbrev pub ◌>>◌ : {S A B : Type 0} → Action S A → Action S B → Action S B
m >> k = m >>= λ _. k

abbrev pub guard : {S : Type 0} → Bool → Error → Action S (Unit {0})
guard true e s = ret tt s
guard false e s = raise e s

abbrev pub gets : {S A : Type 0} → (S → A) → Action S A
gets f s = ret (f s) s

abbrev pub modify : {S : Type 0} → (S → S) → Action S (Unit {0})
modify f s = ret tt (f s)
