-- ===== src/Outcome/Yields.antt =====
-- What holds of the value of a computation, if it has one.
use rtcp.Prelude.{◌≡◌, Bool, true, false, if◌then◌else◌}
use mathlib.Core.Path.{subst}
use rtcp.Result.{Result, ok, ◌>>=◌, bind-eq-ok}

pub record Yields {A : Type 0} (P : A → Type 0) (m : Result A) : Type 0 where
  pub value : (a : A) → m ≡ ok a → P a

module _ {A : Type 0} where
  pub Yields-any : {m : Result A} → Yields (λ _. Unit {0}) m
  Yields-any = record { value = λ a e. tt }

  pub Yields-ok : (P : A → Type 0) (a : A) → P a → Yields P (ok a)
  Yields-ok P a p = record { value = λ b e. let same : a ≡ b = cc in subst P same p }

  pub Yields-if :
      {P : A → Type 0} (b : Bool) {m n : Result A}
      → Yields P m
      → Yields P n
      → Yields P (if b then m else n)
  Yields-if true y z = y
  Yields-if false y z = z

pub Yields-bind :
    {A B : Type 0} {Q : A → Type 0} {P : B → Type 0} {m : Result A} {f : A → Result B}
    → Yields Q m
    → ((a : A) → Q a → Yields P (f a))
    → Yields P (m >>= f)
Yields-bind {m = m} {f = f} y k = record {
  value = λ b e. let (a, first, rest) = bind-eq-ok m f e in (k a (y.value a first)).value b rest;
}

-- A step of which nothing is needed.
pub Yields-after :
    {A B : Type 0} {P : B → Type 0} (m : Result A) {f : A → Result B}
    → ((a : A) → Yields P (f a))
    → Yields P (m >>= f)
Yields-after m k = Yields-bind Yields-any (λ a _. k a)
