-- ===== src/Base/Exec.antt =====
-- Methods of an object that may raise: the outcome stands beside the state that the call leaves.
pub mod Ensures
pub mod Atomic
pub mod Reports
pub mod Keeps
use get_receipt.Base.Raising.{Result, ok, err}

abbrev pub Exec {ℓ} : Type ℓ → Type ℓ → Type ℓ → Type ℓ
Exec S E A = S → Result E A × S

module _ {ℓ} {S E A : Type ℓ} where
  unfoldable pub pure : A → Exec S E A
  pure a s = (ok a, s)

  unfoldable pub lift : Result E A → Exec S E A
  lift r s = (r, s)

  unfoldable pub gets : (S → A) → Exec S E A
  gets f s = (ok (f s), s)

  abbrev pub rollback : S → Result E A × S → Result E A × S
  rollback s (ok a, t) = (ok a, t)
  rollback s (err e, t) = (err e, s)

  -- BEGIN IMMEDIATE, COMMIT after the block, ROLLBACK when the block raises.
  unfoldable pub transaction : Exec S E A → Exec S E A
  transaction m s = rollback s (m s)

module _ {ℓ} {S E : Type ℓ} where
  unfoldable pub modify : (S → S) → Exec S E (Unit {ℓ})
  modify f s = (ok tt, f s)

module _ {ℓ} {S E A B : Type ℓ} where
  abbrev pub continue : Result E A → (A → Exec S E B) → Exec S E B
  continue (ok a) f s = f a s
  continue (err e) f s = (err e, s)

  infixl 5 ◌>>=◌ ◌>>◌
  -- To open this is to open the other operations.
  unfoldable pub ◌>>=◌ : Exec S E A → (A → Exec S E B) → Exec S E B
  unfolding pure lift gets modify transaction
  ◌>>=◌ m f s = let (r, t) = m s in continue r f t

  abbrev pub ◌>>◌ : Exec S E A → Exec S E B → Exec S E B
  m >> n = m >>= λ _. n
