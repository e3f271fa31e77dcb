-- ===== src/Prelude/Monad.antt =====
-- Code that reads and writes a state and may fail. What was written before a failure stays
-- written, so the state comes back beside the error too.
pub mod Keeps
pub mod Leads

pub data Result {ℓ κ} (E : Type ℓ) (A : Type κ) : Type (ℓ ⊔ κ) where
  ok : A → Result E A
  err : E → Result E A

abbrev pub Exec : Type 0 → Type 0 → Type 0 → Type 0
Exec S E A = S → Result E A × S

module _ {S E A : Type 0} where
  abbrev pub pure : A → Exec S E A
  pure a s = (ok a, s)

  abbrev pub raise : E → Exec S E A
  raise e s = (err e, s)

  abbrev pub gets : (S → A) → Exec S E A
  gets f s = (ok (f s), s)

abbrev pub modify : {S E : Type 0} → (S → S) → Exec S E (Unit {0})
modify f s = (ok tt, f s)

module _ {S E A B : Type 0} where
  abbrev pub continue : (A → Exec S E B) → Result E A × S → Result E B × S
  continue f (ok a, s) = f a s
  continue f (err e, s) = (err e, s)

  infixl 10 ◌>>=◌ ◌>>◌
  abbrev pub ◌>>=◌ : Exec S E A → (A → Exec S E B) → Exec S E B
  ◌>>=◌ m f s = continue f (m s)

  abbrev pub ◌>>◌ : Exec S E A → Exec S E B → Exec S E B
  m >> n = m >>= λ _. n

-- The handling of an error, which may go on or fail in another way.
module _ {S E F A : Type 0} where
  abbrev pub recover : (E → Exec S F A) → Result E A × S → Result F A × S
  recover h (ok a, s) = (ok a, s)
  recover h (err e, s) = h e s

  abbrev pub handle : Exec S E A → (E → Exec S F A) → Exec S F A
  handle m h s = recover h (m s)
