-- ===== src/Prelude/Hoare.antt =====
-- Contracts of actions: from a state with `P`, a return meets `Q` and a raise meets `R`.
use mathlib.Core.Path.{◌≡◌, refl, subst}
use ha_codex_voice.Prelude.Action.{Outcome, returned, raised, and_then, resume, ◌>>=◌, ◌>>◌}

module _ {S E A : Type 0} where
  abbrev pub Post : (A → S → Type 0) → (E → S → Type 0) → Outcome E A × S → Type 0
  Post Q R (returned a, s) = Q a s
  Post Q R (raised e, s) = R e s

  pub record Meets (P : S → Type 0) (m : S → Outcome E A × S) (Q : A → S → Type 0)
      (R : E → S → Type 0) : Type 0 where
    pub at : (s : S) → P s → Post Q R (m s)

module _ {S E A B : Type 0} {Q : B → S → Type 0} {R : E → S → Type 0} where
  resume-Meets :
      (Q' : A → S → Type 0) (f : A → S → Outcome E B × S)
      → ((a : A) → Meets (Q' a) (f a) Q R)
      → (r : Outcome E A) (s : S) → Post Q' R (r, s)
      → Post Q R (resume r f s)
  resume-Meets Q' f k (returned a) s h = (k a).at s h
  resume-Meets Q' f k (raised e) s h = h

module _ {S E A B : Type 0} {P : S → Type 0} {Q : B → S → Type 0} {R : E → S → Type 0} where
  pub Meets-bind :
      (Q' : A → S → Type 0) (m : S → Outcome E A × S) (f : A → S → Outcome E B × S)
      → Meets P m Q' R
      → ((a : A) → Meets (Q' a) (f a) Q R)
      → Meets P (m >>= f) Q R
  Meets-bind Q' m f h k = record { at = λ s p. resume-Meets Q' f k (m s).0 (m s).1 (h.at s p) }

  pub Meets-then :
      (Q' : A → S → Type 0) (m : S → Outcome E A × S) (f : S → Outcome E B × S)
      → Meets P m Q' R
      → ((a : A) → Meets (Q' a) f Q R)
      → Meets P (m >> f) Q R
  Meets-then Q' m f h k = Meets-bind Q' m (λ _. f) h k

-- What a chain of checks ensures of its result.
module _ {E A : Type 0} where
  abbrev pub Ensures : (A → Type 0) → Outcome E A → Type 0
  Ensures P (returned a) = P a
  Ensures P (raised e) = Unit

  pub Ensures-at : (P : A → Type 0) (r : Outcome E A) (a : A) → r ≡ returned a → Ensures P r → P a
  Ensures-at P r a e h = subst (Ensures P) e h

  pub Ensures-equal : (r : Outcome E A) → Ensures (λ a. r ≡ returned a) r
  Ensures-equal (returned a) = refl
  Ensures-equal (raised e) = tt

module _ {E A B : Type 0} where
  pub Ensures-then :
      (P : B → Type 0) (Q : A → Type 0) (r : Outcome E A) (f : A → Outcome E B)
      → Ensures Q r
      → ((a : A) → Q a → Ensures P (f a))
      → Ensures P (and_then r f)
  Ensures-then P Q (returned a) f h k = k a h
  Ensures-then P Q (raised e) f h k = tt
