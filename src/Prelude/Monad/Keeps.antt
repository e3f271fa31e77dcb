-- ===== src/Prelude/Monad/Keeps.antt =====
-- Invariants of actions, with one rule for each way to build an action.
use mathlib.Core.Path.{◌≡◌, refl}
use mathlib.Core.Bool.{Bool, true, false}
use tileserve_go.Prelude.Tests.{if◌then◌else◌}
use tileserve_go.Prelude.Monad.{
  Result, ok, err, Exec, pure, raise, gets, continue, ◌>>=◌, recover, handle,
}

-- `m` keeps `P`, whether it returns or fails.
pub record Keeps {S E A : Type 0} (P : S → Type 0) (m : Exec S E A) : Type 0 where
  pub at : (s : S) → P s → P (m s).1

module _ {S E A : Type 0} {P : S → Type 0} where
  pub Keeps-pure : (a : A) → Keeps P (pure {E = E} a)
  Keeps-pure a = record { at = λ s h. h }

  pub Keeps-raise : (e : E) → Keeps P (raise {A = A} e)
  Keeps-raise e = record { at = λ s h. h }

  pub Keeps-gets : (f : S → A) → Keeps P (gets {E = E} f)
  Keeps-gets f = record { at = λ s h. h }

  pub Keeps-if :
      (b : Bool) (first second : Exec S E A)
      → (b ≡ true → Keeps P first)
      → (b ≡ false → Keeps P second)
      → Keeps P (if b then first else second)
  Keeps-if true first second k l = k refl
  Keeps-if false first second k l = l refl

module _ {S E A B : Type 0} {P : S → Type 0} where
  Keeps-continue :
      (r : Result E A × S) (f : A → Exec S E B)
      → ((a : A) → Keeps P (f a))
      → P r.1
      → P (continue f r).1
  Keeps-continue (ok a, s) f kf h = (kf a).at s h
  Keeps-continue (err e, s) f kf h = h

  pub Keeps-bind :
      (m : Exec S E A) (f : A → Exec S E B)
      → Keeps P m
      → ((a : A) → Keeps P (f a))
      → Keeps P (m >>= f)
  Keeps-bind m f km kf = record { at = λ s h. Keeps-continue (m s) f kf (km.at s h) }

module _ {S E F A : Type 0} {P : S → Type 0} where
  Keeps-recover :
      (r : Result E A × S) (f : E → Exec S F A)
      → ((e : E) → Keeps P (f e))
      → P r.1
      → P (recover f r).1
  Keeps-recover (ok a, s) f kf h = h
  Keeps-recover (err e, s) f kf h = (kf e).at s h

  pub Keeps-handle :
      (m : Exec S E A) (f : E → Exec S F A)
      → Keeps P m
      → ((e : E) → Keeps P (f e))
      → Keeps P (handle m f)
  Keeps-handle m f km kf = record { at = λ s h. Keeps-recover (m s) f kf (km.at s h) }

pub ruleset keeps_rules = (Keeps-pure, Keeps-raise, Keeps-gets, Keeps-if, Keeps-bind, Keeps-handle)
