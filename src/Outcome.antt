-- ===== src/Outcome.antt =====
-- What a computation may come to, as a predicate: no exhausted fuel, a panic only where it is
-- allowed, and values with a property.
pub mod Answers
pub mod Yields
use rtcp.Prelude.{ℕ, ◌≤◌, ◌≡◌, ◌≢◌, refl, arith, Bool, true, false, ltb, if◌then◌else◌}
use mathlib.Core.Path.{subst}
use rtcp.Result.{Error, Result, ok, err, panic, stuck, ◌>>=◌, bind-eq-ok, fail_if}

-- `panics` is the type that a panic has to inhabit: `⊥` rules it out, `Unit` lets it pass.
abbrev pub Post : {A : Type 0} → Type 0 → (A → Type 0) → Result A → Type 0
Post panics P (ok a) = P a
Post panics P (err e) = Unit
Post panics P panic = panics
Post panics P stuck = ⊥

pub record Ends {A : Type 0} (panics : Type 0) (P : A → Type 0) (m : Result A) : Type 0 where
  pub at : Post panics P m

-- It never panics.
abbrev pub Safe : {A : Type 0} → (A → Type 0) → Result A → Type 0
Safe P m = Ends ⊥ P m

module _ {A : Type 0} {panics : Type 0} where
  pub Ends-ok : (P : A → Type 0) (a : A) → P a → Ends panics P (ok a)
  Ends-ok P a p = record { at = p }

  pub Ends-err : (P : A → Type 0) (e : Error) → Ends panics P (err e)
  Ends-err P e = record { at = tt }

  -- A value of the computation has the property.
  pub Ends-value : (P : A → Type 0) (m : Result A) (a : A) → Ends panics P m → m ≡ ok a → P a
  Ends-value P m a d e = (subst (λ t. Ends panics P t) e d).at

  pub Ends-ne_stuck : (P : A → Type 0) (m : Result A) → Ends panics P m → m ≢ stuck
  Ends-ne_stuck P m d e = (subst (λ t. Ends panics P t) e d).at

  -- A panic is allowed.
  pub Ends-panic : (P : A → Type 0) (m : Result A) → Ends panics P m → m ≡ panic → panics
  Ends-panic P m d e = (subst (λ t. Ends panics P t) e d).at

  pub Ends-weaken :
      (P Q : A → Type 0) (m : Result A) → ((a : A) → P a → Q a) → Ends panics P m → Ends panics Q m
  Ends-weaken P Q (ok a) f d = record { at = f a d.at }
  Ends-weaken P Q (err e) f d = record { at = tt }
  Ends-weaken P Q panic f d = record { at = d.at }
  Ends-weaken P Q stuck f d = record { at = d.at }

  pub Ends-if :
      (P : A → Type 0) (b : Bool) (m n : Result A)
      → Ends panics P m
      → Ends panics P n
      → Ends panics P (if b then m else n)
  Ends-if P true m n dm dn = dm
  Ends-if P false m n dm dn = dn

module _ {A B : Type 0} {panics : Type 0} where
  pub Ends-bind :
      {Q : A → Type 0} {P : B → Type 0} {m : Result A} {f : A → Result B}
      → Ends panics Q m
      → ((a : A) → Q a → Ends panics P (f a))
      → Ends panics P (m >>= f)
  Ends-bind {m = ok a} d k = k a d.at
  Ends-bind {m = err e} d k = record { at = tt }
  Ends-bind {m = panic} d k = record { at = d.at }
  Ends-bind {m = stuck} d k = record { at = d.at }

  -- The rest may use where the value is from.
  pub Ends-bind_eq :
      {Q : A → Type 0} {P : B → Type 0} {m : Result A} {f : A → Result B}
      → Ends panics Q m
      → ((a : A) → m ≡ ok a → Q a → Ends panics P (f a))
      → Ends panics P (m >>= f)
  Ends-bind_eq {m = ok a} d k = k a refl d.at
  Ends-bind_eq {m = err e} d k = record { at = tt }
  Ends-bind_eq {m = panic} d k = record { at = d.at }
  Ends-bind_eq {m = stuck} d k = record { at = d.at }

-- A panic that is allowed may be allowed elsewhere.
pub Ends-allow :
    {A : Type 0} {few many : Type 0} (P : A → Type 0) (m : Result A)
    → (few → many)
    → Ends few P m
    → Ends many P m
Ends-allow P (ok a) f d = record { at = d.at }
Ends-allow P (err e) f d = record { at = tt }
Ends-allow P panic f d = record { at = f d.at }
Ends-allow P stuck f d = record { at = d.at }

-- `if bad { return err }`: the rest may use that it was not bad.
pub fail_if-Ends :
    {panics : Type 0} (b : Bool) (e : Error) → Ends panics (λ _. b ≡ false) (fail_if b e)
fail_if-Ends true e = record { at = tt }
fail_if-Ends false e = record { at = refl }

pub too_short-Ends :
    {panics : Type 0} (k n : ℕ) (e : Error) → Ends panics (λ _. n ≤ k) (fail_if (ltb k n) e)
too_short-Ends k n e =
    Ends-weaken (λ _. ltb k n ≡ false) (λ _. n ≤ k) _ (λ _ h. ground arith)
      (fail_if-Ends (ltb k n) e)

-- What the first computes, the second computes too.
pub record Keeps {A : Type 0} (first second : Result A) : Type 0 where
  pub value : (a : A) → first ≡ ok a → second ≡ ok a

pub Keeps-refl : {A : Type 0} (m : Result A) → Keeps m m
Keeps-refl m = record { value = λ a e. e }

pub Keeps-bind :
    {A B : Type 0} {m n : Result A} {f g : A → Result B}
    → Keeps m n
    → ((a : A) → Keeps (f a) (g a))
    → Keeps (m >>= f) (n >>= g)
Keeps-bind {m = m} {n = n} {f = f} {g = g} k l = record {
  value = λ b e.
      let (a, first, then_) = bind-eq-ok m f e in
      let second = k.value a first in rw second ((l a).value b then_);
}

pub Keeps-if :
    {A : Type 0} (b : Bool) {m n m' n' : Result A}
    → Keeps m m'
    → Keeps n n'
    → Keeps (if b then m else n) (if b then m' else n')
Keeps-if true k l = k
Keeps-if false k l = l

-- A step that both of them begin with.
pub Keeps-after :
    {A B : Type 0} (m : Result A) {f g : A → Result B}
    → ((a : A) → Keeps (f a) (g a))
    → Keeps (m >>= f) (m >>= g)
Keeps-after m l = Keeps-bind (Keeps-refl m) l
