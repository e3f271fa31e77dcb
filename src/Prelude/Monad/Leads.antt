-- ===== src/Prelude/Monad/Leads.antt =====
-- What an action leaves behind where it returns and where it fails, with one rule for each way to
-- build an action.
use mathlib.Core.Path.{◌≡◌}
use mathlib.Core.Bool.{Bool, true, false}
use mathlib.Core.Logic.{inl, inr}
use tileserve_go.Prelude.Tests.{Bool-cases}
use tileserve_go.Prelude.Monad.{
  Result, ok, err, Exec, pure, raise, gets, modify, continue, recover, handle, ◌>>=◌, ◌>>◌,
}

abbrev pub Outcome : {S E A : Type 0} → (S → Type 0) → (S → Type 0) → Result E A × S → Type 0
Outcome Q F (ok a, s) = Q s
Outcome Q F (err e, s) = F s

-- From `P`, `m` returns in `Q` or fails in `F`.
pub record Leads {S E A : Type 0} (P Q F : S → Type 0) (m : Exec S E A) : Type 0 where
  pub at : (s : S) → P s → Outcome Q F (m s)

module _ {S E A : Type 0} {P F : S → Type 0} where
  pub Leads-pure : (a : A) → Leads {E = E} P P F (pure a)
  Leads-pure a = record { at = λ s h. h }

  pub Leads-raise : {Q : S → Type 0} (e : E) → ((s : S) → P s → F s) → Leads P Q F (raise {A = A} e)
  Leads-raise e h = record { at = h }

pub Leads-modify :
    {S E : Type 0} {P Q F : S → Type 0} (f : S → S)
    → ((s : S) → P s → Q (f s))
    → Leads P Q F (modify {E = E} f)
Leads-modify f h = record { at = h }

module _ {S E A B : Type 0} {Q R F : S → Type 0} where
  Leads-continue :
      (r : Result E A × S) (f : A → Exec S E B)
      → ((a : A) → Leads Q R F (f a))
      → Outcome Q F r
      → Outcome R F (continue f r)
  Leads-continue (ok a, s) f kf h = (kf a).at s h
  Leads-continue (err e, s) f kf h = h

module _ {S E A B : Type 0} {P Q R F : S → Type 0} where
  pub Leads-bind :
      (m : Exec S E A) (f : A → Exec S E B)
      → Leads P Q F m
      → ((a : A) → Leads Q R F (f a))
      → Leads P R F (m >>= f)
  Leads-bind m f km kf = record { at = λ s h. Leads-continue (m s) f kf (km.at s h) }

  pub Leads-then :
      (m : Exec S E A) (n : Exec S E B) → Leads P Q F m → Leads Q R F n → Leads P R F (m >> n)
  Leads-then m n km kn = Leads-bind m (λ _. n) km (λ _. kn)

module _ {S E B : Type 0} {P R F : S → Type 0} where
  -- A test that is read first.
  pub Leads-test :
      (test : S → Bool) (f : Bool → Exec S E B)
      → Leads (λ s. P s × (test s ≡ true)) R F (f true)
      → Leads (λ s. P s × (test s ≡ false)) R F (f false)
      → Leads P R F (gets test >>= f)
  Leads-test test f here there = record {
    at = λ s h. elim (Bool-cases (test s)) [
      | inl e ↦ rw e (here.at s (h, e))
      | inr e ↦ rw e (there.at s (h, e))
    ];
  }

  pub Leads-from :
      {Q : S → Type 0} (m : Exec S E B) → ((s : S) → P s → Q s) → Leads Q R F m → Leads P R F m
  Leads-from m h k = record { at = λ s p. k.at s (h s p) }

module _ {S E G A : Type 0} {Q F R : S → Type 0} where
  Outcome-recover :
      (r : Result E A × S) (f : E → Exec S G A)
      → ((e : E) → Leads R Q F (f e))
      → Outcome Q R r
      → Outcome Q F (recover f r)
  Outcome-recover (ok a, s) f kf h = h
  Outcome-recover (err e, s) f kf h = (kf e).at s h

module _ {S E G A : Type 0} {P Q F R : S → Type 0} where
  pub Leads-handle :
      (m : Exec S E A) (f : E → Exec S G A)
      → Leads P Q R m
      → ((e : E) → Leads R Q F (f e))
      → Leads P Q F (handle m f)
  Leads-handle m f km kf = record { at = λ s h. Outcome-recover (m s) f kf (km.at s h) }
