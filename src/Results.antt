-- ===== src/Results.antt =====
-- Fallible steps that touch no state: a chain of `if err != nil { return err }`.
use noisecat.Base.{
  ◌≡◌, ◌⊎◌, inl, inr, refl, Bool, true, false, Option, none, some, Error, Result, ok, err, wrapped,
  String, if◌then◌else◌,
}

-- The next step of a chain runs on the value, and not at all behind an error.
module _ {ℓ κ} {A : Type ℓ} {B : Type κ} where
  infixl 5 ◌>>=◌
  abbrev pub ◌>>=◌ : Result A → (A → Result B) → Result B
  m >>= next = elim m [ ok x ↦ next x | err why ↦ err why ]

  -- A chain that ends well has a first step that does.
  pub >>=-eq-ok :
      (m : Result A) (next : A → Result B) {y : B}
      → (m >>= next) ≡ ok y
      → (x : A) × (m ≡ ok x) × (next x ≡ ok y)
  >>=-eq-ok (ok x) next done = (x, refl, done)
  >>=-eq-ok (err why) next done = cc

infixl 5 ◌>>◌
abbrev pub ◌>>◌ {ℓ} : {C : Type ℓ} → Result (Unit {0}) → Result C → Result C
first >> second = first >>= λ u. second

-- `if !ok { return err }`
abbrev pub require : Bool → Error → Result (Unit {0})
require passed why = if passed then ok tt else err why

abbrev pub or_err {ℓ} : {A : Type ℓ} → Option A → Error → Result A
or_err none e = err e
or_err (some a) e = ok a

pub require-eq-ok {ℓ} :
    {B : Type ℓ} (t : Bool) (e : Error) (m : Result B) {b : B}
    → (require t e >> m) ≡ ok b
    → (t ≡ true) × (m ≡ ok b)
require-eq-ok true e m h = (refl, h)
require-eq-ok false e m h = cc

pub wrapped-eq-ok {ℓ} :
    {A : Type ℓ} (msg : String) (m : Result A) {a : A} → wrapped msg m ≡ ok a → m ≡ ok a
wrapped-eq-ok msg (ok a) h = h
wrapped-eq-ok msg (err e) h = cc

pub require-true : (t : Bool) (e : Error) → require t e ≡ ok tt → t ≡ true
require-true true e h = refl
require-true false e h = cc

pub or_err-eq-ok {ℓ} :
    {A : Type ℓ} (o : Option A) (e : Error) {a : A} → or_err o e ≡ ok a → o ≡ some a
or_err-eq-ok none e h = cc
or_err-eq-ok (some a) e h = cc

-- A branch, and what its test came to.
pub if-eq-ok {ℓ} :
    {A : Type ℓ} (b : Bool) (m n : Result A) {a : A}
    → (if b then m else n) ≡ ok a
    → ((b ≡ true) × (m ≡ ok a)) ⊎ ((b ≡ false) × (n ≡ ok a))
if-eq-ok true m n h = inl (refl, h)
if-eq-ok false m n h = inr (refl, h)

pub Result-cases {ℓ} :
    {A : Type ℓ} (m : Result A) → ((a : A) × (m ≡ ok a)) ⊎ ((e : Error) × (m ≡ err e))
Result-cases (ok a) = inl (a, refl)
Result-cases (err e) = inr (e, refl)

pub ok-pair {ℓ κ} :
    {A : Type ℓ} {B : Type κ} {a a' : A} {b b' : B}
    → ◌≡◌ {A = Result (A × B)} (ok (a, b)) (ok (a', b'))
    → (a ≡ a') × (b ≡ b')
ok-pair h = (cc h, cc h)
