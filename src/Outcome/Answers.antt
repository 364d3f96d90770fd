-- ===== src/Outcome/Answers.antt =====
-- What a writer may come to: a value with a property, or an error that has a cause; never a panic,
-- and never an exhausted fuel.
use rtcp.Prelude.{ℕ, suc, ◌≤◌, ◌≡◌, refl, arith, Bool, true, false, ltb}
use rtcp.Result.{Error, Result, ok, err, panic, stuck, ◌>>=◌, fail_if}

abbrev Post : {A : Type 0} → (Error → Type 0) → (A → Type 0) → Result A → Type 0
Post E P (ok a) = P a
Post E P (err e) = E e
Post E P panic = ⊥
Post E P stuck = ⊥

pub record Answers {A : Type 0} (E : Error → Type 0) (P : A → Type 0) (m : Result A) : Type 0 where
  pub at : Post E P m

module _ {A : Type 0} {E : Error → Type 0} where
  pub Answers-ok : (P : A → Type 0) (a : A) → P a → Answers E P (ok a)
  Answers-ok P a p = record { at = p }

  -- A computation that is known.
  pub Answers-eq : {P : A → Type 0} {m n : Result A} → m ≡ n → Answers E P n → Answers E P m
  Answers-eq e t = rw e t

  pub Answers-weaken :
      {P : A → Type 0} {E' : Error → Type 0} (Q : A → Type 0) {m : Result A}
      → ((a : A) → P a → Q a)
      → ((e : Error) → E e → E' e)
      → Answers E P m
      → Answers E' Q m
  Answers-weaken Q {m = ok a} f g t = record { at = f a t.at }
  Answers-weaken Q {m = err e} f g t = record { at = g e t.at }
  Answers-weaken Q {m = panic} f g t = record { at = t.at }
  Answers-weaken Q {m = stuck} f g t = record { at = t.at }

-- Where no error is possible, there is a value.
pub Answers-always :
    {A : Type 0} {P : A → Type 0} {m : Result A} → Answers (λ _. ⊥) P m → (a : A) × (m ≡ ok a) × P a
Answers-always {m = ok a} t = (a, refl, t.at)
Answers-always {m = err e} t = absurd t.at
Answers-always {m = panic} t = absurd t.at
Answers-always {m = stuck} t = absurd t.at

pub Answers-bind :
    {A B : Type 0} {E : Error → Type 0} {Q : A → Type 0} {P : B → Type 0} {m : Result A}
    {f : A → Result B}
    → Answers E Q m
    → ((a : A) → Q a → Answers E P (f a))
    → Answers E P (m >>= f)
Answers-bind {m = ok a} t k = k a t.at
Answers-bind {m = err e} t k = record { at = t.at }
Answers-bind {m = panic} t k = record { at = t.at }
Answers-bind {m = stuck} t k = record { at = t.at }

-- `if bad { return err }`
pub fail_if-Answers :
    {E : Error → Type 0} (b : Bool) (e : Error)
    → (b ≡ true → E e)
    → Answers E (λ _. b ≡ false) (fail_if b e)
fail_if-Answers true e cause = record { at = cause refl }
fail_if-Answers false e cause = record { at = refl }

-- `if n > k { return err }`
pub too_many-Answers :
    {E : Error → Type 0} (k n : ℕ) (e : Error)
    → (suc k ≤ n → E e)
    → Answers E (λ _. n ≤ k) (fail_if (ltb k n) e)
too_many-Answers k n e cause =
    Answers-weaken (λ _. n ≤ k) (λ _ h. ground arith) (λ _ h. h)
      (fail_if-Answers (ltb k n) e (λ h. cause (ground arith)))
