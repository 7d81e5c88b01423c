-- ===== src/Prelude/Action.antt =====
-- An `Action` is a method that mutates an object and may raise: what it wrote before the raise stays written,
-- so the object comes back beside the exception too.
use mathlib.Core.Bool.{Bool, true, false}

pub data Outcome {ℓ κ} (E : Type κ) (A : Type ℓ) : Type (ℓ ⊔ κ) where
  returned : A → Outcome E A
  raised : E → Outcome E A

abbrev pub Action : Type 0 → Type 0 → Type 0 → Type 0
Action S E A = S → Outcome E A × S

module _ {S E A : Type 0} where
  abbrev pub pure : A → S → Outcome E A × S
  pure a s = (returned a, s)

  abbrev pub throw : E → S → Outcome E A × S
  throw e s = (raised e, s)

  abbrev pub lift : Outcome E A → S → Outcome E A × S
  lift r s = (r, s)

module _ {S E A B : Type 0} where
  abbrev pub resume : Outcome E A → (A → S → Outcome E B × S) → S → Outcome E B × S
  resume (returned a) f s = f a s
  resume (raised e) f s = (raised e, s)

  infixl 5 ◌>>=◌ ◌>>◌
  abbrev pub ◌>>=◌ : (S → Outcome E A × S) → (A → S → Outcome E B × S) → S → Outcome E B × S
  ◌>>=◌ m f s = let (r, s') = m s in resume r f s'

  abbrev pub ◌>>◌ : (S → Outcome E A × S) → (S → Outcome E B × S) → S → Outcome E B × S
  m >> k = m >>= λ _. k

module _ {S E : Type 0} where
  -- `if test: raise e`
  abbrev pub raise_if : Bool → E → S → Outcome E (Unit {0}) × S
  raise_if true e s = (raised e, s)
  raise_if false e s = (returned tt, s)

  abbrev pub modify : (S → S) → S → Outcome E (Unit {0}) × S
  modify f s = (returned tt, f s)

-- A chain of checks with no object.
module _ {E : Type 0} where
  abbrev pub check : Bool → E → Outcome E (Unit {0})
  check true e = returned tt
  check false e = raised e

module _ {E A B : Type 0} where
  abbrev pub and_then : Outcome E A → (A → Outcome E B) → Outcome E B
  and_then (returned a) f = f a
  and_then (raised e) f = raised e
