-- ===== src/Base/Exec/Atomic.antt =====
-- Methods that leave the state as it was when they raise, and methods that only read it.
use mathlib.Core.Path.{◌≡◌, refl, ◌∙◌, subst, sym}
use get_receipt.Base.Exec.Ensures.{Ensures}
use get_receipt.Base.Raising.{Result, ok, err}
use get_receipt.Base.Exec.{Exec, pure, lift, gets, transaction, rollback, continue, ◌>>=◌}

pub record Atomic {ℓ} {S E A : Type ℓ} (m : Exec S E A) : Type ℓ where
  pub at : (s : S) (e : E) → (m s).0 ≡ err e → (m s).1 ≡ s

pub record ReadsOnly {ℓ} {S E A : Type ℓ} (m : Exec S E A) : Type ℓ where
  pub at : (s : S) → (m s).1 ≡ s

module _ {ℓ} {S E A : Type ℓ} where
  pub ReadsOnly-pure : (a : A) → ReadsOnly {S = S} {E = E} (pure a)
  unfolding pure
  ReadsOnly-pure a = record { at = λ s. refl }

  pub ReadsOnly-gets : (g : S → A) → ReadsOnly {E = E} (gets g)
  unfolding gets
  ReadsOnly-gets g = record { at = λ s. refl }

  pub ReadsOnly-lift : (r : Result E A) → ReadsOnly {S = S} (lift r)
  unfolding lift
  ReadsOnly-lift r = record { at = λ s. refl }

  pub Atomic-reads : (m : Exec S E A) → ReadsOnly m → Atomic m
  Atomic-reads m r = record { at = λ s e h. r.at s }

  rollback_state :
      (s : S) (r : Result E A × S) (e : E) → (rollback s r).0 ≡ err e → (rollback s r).1 ≡ s
  rollback_state s (ok a, t) e h = cc
  rollback_state s (err f, t) e h = refl

  pub Atomic-transaction : (m : Exec S E A) → Atomic (transaction m)
  unfolding transaction
  Atomic-transaction m = record { at = λ s e h. rollback_state s (m s) e h }

module _ {ℓ} {S E A B : Type ℓ} where
  pub ReadsOnly-bind :
      (m : Exec S E A) (f : A → Exec S E B)
      → ReadsOnly m
      → ((a : A) → ReadsOnly (f a))
      → ReadsOnly (m >>= f)
  unfolding ◌>>=◌
  ReadsOnly-bind m f rm rf = record { at = λ s. step (m s).0 (m s).1 ∙ rm.at s }
    where
      step : (r : Result E A) (t : S) → (continue r f t).1 ≡ t
      step (ok a) t = (rf a).at t
      step (err e) t = refl

  pub Atomic-bind :
      (m : Exec S E A) (f : A → Exec S E B)
      → ReadsOnly m
      → ((a : A) → Atomic (f a))
      → Atomic (m >>= f)
  unfolding ◌>>=◌
  Atomic-bind m f rm af = record { at = λ s e h. step (m s).0 (m s).1 e h ∙ rm.at s }
    where
      step : (r : Result E A) (t : S) (e : E) → (continue r f t).0 ≡ err e → (continue r f t).1 ≡ t
      step (ok a) t e h = (af a).at t e h
      step (err d) t e h = refl

  -- What cannot raise may follow.
  pub Atomic-bind-pure : (m : Exec S E A) (f : A → B) → Atomic m → Atomic (m >>= λ a. pure (f a))
  unfolding pure ◌>>=◌
  Atomic-bind-pure m f am = record { at = λ s e h. step s (m s).0 (m s).1 (am.at s) e h }
    where
      step :
          (s : S) (r : Result E A) (t : S)
          → ((e : E) → r ≡ err e → t ≡ s)
          → (e : E) → (continue r (λ a u. (ok (f a), u)) t).0 ≡ err e
          → (continue r (λ a u. (ok (f a), u)) t).1 ≡ s
      step s (ok a) t k e h = cc
      step s (err d) t k e h = k d refl

pub ruleset atomic_rules = (
  ReadsOnly-pure, ReadsOnly-gets, ReadsOnly-lift, ReadsOnly-bind, Atomic-transaction, Atomic-bind,
  Atomic-bind-pure, Atomic-reads,
)

-- An invariant that a method keeps when it returns, it keeps on every path if it is atomic.
pub Atomic-invariant {ℓ} :
    {S E A : Type ℓ} (P : S → Type ℓ) (m : Exec S E A) (s : S)
    → Atomic m
    → Ensures m s (λ a t. P t)
    → P s
    → P (m s).1
Atomic-invariant {S = S} {E} {A} P m s am em p = step (m s).0 (m s).1 (am.at s) (em.at)
  where
    step :
        (r : Result E A) (t : S)
        → ((e : E) → r ≡ err e → t ≡ s)
        → ((a : A) (u : S) → ◌≡◌ {A = Result E A × S} (r, t) (ok a, u) → P u)
        → P t
    step (ok a) t k q = q a t refl
    step (err e) t k q = subst P (sym (k e refl)) p
