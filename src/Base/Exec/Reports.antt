-- ===== src/Base/Exec/Reports.antt =====
-- What holds of either outcome of a method: of a value with the state, or of an error with the state.
use get_receipt.Base.Raising.{Result, ok, err}
use get_receipt.Base.Exec.{Exec, pure, continue, ◌>>=◌}

module _ {ℓ} {S E A : Type ℓ} where
  abbrev pub OutcomeOf : (A → S → Type ℓ) → (E → S → Type ℓ) → Result E A × S → Type ℓ
  OutcomeOf Q R (ok a, t) = Q a t
  OutcomeOf Q R (err e, t) = R e t

  pub record Reports (m : Exec S E A) (s : S) (Q : A → S → Type ℓ) (R : E → S → Type ℓ)
      : Type ℓ where
    pub at : OutcomeOf Q R (m s)

  pub Reports-pure :
      {Q : A → S → Type ℓ} {R : E → S → Type ℓ} (a : A) (s : S) → Q a s → Reports (pure a) s Q R
  unfolding pure
  Reports-pure a s q = record { at = q }

module _ {ℓ} {S E A B : Type ℓ} {Q : A → S → Type ℓ} {Q' : B → S → Type ℓ}
    {R : E → S → Type ℓ} where
  step :
      (f : A → Exec S E B) (r : Result E A) (t : S)
      → OutcomeOf Q R (r, t)
      → ((a : A) (u : S) → Q a u → Reports (f a) u Q' R)
      → OutcomeOf Q' R (continue r f t)
  step f (ok a) t h k = (k a t h).at
  step f (err e) t h k = h

  pub Reports-bind :
      (m : Exec S E A) (f : A → Exec S E B) (s : S)
      → Reports m s Q R
      → ((a : A) (t : S) → Q a t → Reports (f a) t Q' R)
      → Reports (m >>= f) s Q' R
  unfolding ◌>>=◌
  Reports-bind m f s h k = record { at = step f (m s).0 (m s).1 h.at k }
