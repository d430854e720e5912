-- ===== src/Base/Exec/Keeps.antt =====
-- Invariants of methods: what holds of the state before a call holds after it, also when it raises.
use mathlib.Core.Bool.{Bool, true, false}
use mathlib.Core.Option.{Option, none, some}
use mathlib.Core.Path.{◌≡◌, refl, subst, sym}
use get_receipt.Base.Tests.{if◌then◌else◌}
use get_receipt.Base.Raising.{Result, ok, err}
use get_receipt.Base.Exec.{modify, transaction, rollback, Exec, pure, lift, gets, continue, ◌>>=◌}
use get_receipt.Base.Exec.Atomic.{ReadsOnly}

pub record Keeps {ℓ κ} {S E A : Type ℓ} (P : S → Type κ) (m : Exec S E A) : Type (ℓ ⊔ κ) where
  pub at : (s : S) → P s → P (m s).1

module _ {ℓ κ} {S E A : Type ℓ} {P : S → Type κ} where
  pub Keeps-pure : (a : A) → Keeps {E = E} P (pure a)
  unfolding pure
  Keeps-pure a = record { at = λ s p. p }

  pub Keeps-lift : (r : Result E A) → Keeps P (lift r)
  unfolding lift
  Keeps-lift r = record { at = λ s p. p }

  pub Keeps-gets : (g : S → A) → Keeps {E = E} P (gets g)
  unfolding gets
  Keeps-gets g = record { at = λ s p. p }

  pub Keeps-reads : (m : Exec S E A) → ReadsOnly m → Keeps P m
  Keeps-reads m r = record { at = λ s p. subst P (sym (r.at s)) p }

  pub Keeps-cond :
      (b : Bool) {m n : Exec S E A}
      → Keeps P m
      → Keeps P n
      → Keeps P (elim b [ true ↦ m | false ↦ n ])
  Keeps-cond true h k = h
  Keeps-cond false h k = k

  pub Keeps-if :
      (b : Bool) {m n : Exec S E A} → Keeps P m → Keeps P n → Keeps P (if b then m else n)
  Keeps-if true h k = h
  Keeps-if false h k = k

  pub Keeps-option :
      {B : Type ℓ} (o : Option B) {m : Exec S E A} {f : B → Exec S E A}
      → Keeps P m
      → ((b : B) → Keeps P (f b))
      → Keeps P (elim o [ none ↦ m | some b ↦ f b ])
  Keeps-option none h k = h
  Keeps-option (some b) h k = k b

module _ {ℓ κ} {S E : Type ℓ} {P : S → Type κ} where
  pub Keeps-modify : (g : S → S) → ((s : S) → P s → P (g s)) → Keeps {E = E} P (modify g)
  unfolding modify
  Keeps-modify g h = record { at = λ s p. h s p }

module _ {ℓ κ} {S E A : Type ℓ} {P : S → Type κ} where
  pub Keeps-transaction : (m : Exec S E A) → Keeps P m → Keeps P (transaction m)
  unfolding transaction
  Keeps-transaction m h = record { at = λ s p. step s (m s).0 (m s).1 p (h.at s p) }
    where
      step : (s : S) (r : Result E A) (t : S) → P s → P t → P (rollback s (r, t)).1
      step s (ok a) t p q = q
      step s (err e) t p q = p

module _ {ℓ κ} {S E A : Type ℓ} {P : S → Type κ} where
  pub Keeps-result :
      {D B : Type ℓ} (r : Result D B) {f : B → Exec S E A} {g : D → Exec S E A}
      → ((b : B) → Keeps P (f b))
      → ((d : D) → Keeps P (g d))
      → Keeps P (elim r [ ok b ↦ f b | err d ↦ g d ])
  Keeps-result (ok b) h k = h b
  Keeps-result (err d) h k = k d

module _ {ℓ κ} {S E A B : Type ℓ} {P : S → Type κ} where
  pub Keeps-bind :
      (m : Exec S E A) (f : A → Exec S E B)
      → Keeps P m
      → ((a : A) → Keeps P (f a))
      → Keeps P (m >>= f)
  unfolding ◌>>=◌
  Keeps-bind m f h k = record { at = λ s p. step (m s).0 (m s).1 (h.at s p) }
    where
      step : (r : Result E A) (t : S) → P t → P (continue r f t).1
      step (ok a) t p = (k a).at t p
      step (err e) t p = p

-- The same, from a state of which more is known.
pub record KeepsFrom {ℓ κ} {S E A : Type ℓ} (P : S → Type κ) (s : S) (m : Exec S E A) : Type κ where
  pub kept : P (m s).1

module _ {ℓ κ} {S E A : Type ℓ} {P : S → Type κ} where
  pub KeepsFrom-Keeps : (m : Exec S E A) (s : S) → Keeps P m → P s → KeepsFrom P s m
  KeepsFrom-Keeps m s k p = record { kept = k.at s p }

  pub KeepsFrom-pure : (a : A) (s : S) → P s → KeepsFrom {E = E} P s (pure a)
  unfolding pure
  KeepsFrom-pure a s p = record { kept = p }

  pub KeepsFrom-cond :
      (b : Bool) {m n : Exec S E A} (s : S)
      → KeepsFrom P s m
      → KeepsFrom P s n
      → KeepsFrom P s (elim b [ true ↦ m | false ↦ n ])
  KeepsFrom-cond true s h k = h
  KeepsFrom-cond false s h k = k

  pub KeepsFrom-if :
      (b : Bool) {m n : Exec S E A} (s : S)
      → KeepsFrom P s m
      → KeepsFrom P s n
      → KeepsFrom P s (if b then m else n)
  KeepsFrom-if true s h k = h
  KeepsFrom-if false s h k = k

module _ {ℓ κ} {S E A B : Type ℓ} {P : S → Type κ} where
  -- The second method starts where the first has returned.
  pub KeepsFrom-bind :
      (m : Exec S E A) (f : A → Exec S E B) (s : S)
      → KeepsFrom P s m
      → ((a : A) (t : S) → m s ≡ (ok a, t) → P t → KeepsFrom P t (f a))
      → KeepsFrom P s (m >>= f)
  unfolding ◌>>=◌
  KeepsFrom-bind m f s p k = record {
    kept = step (m s).0 (m s).1 p.kept (λ a e. (k a (m s).1 (rw (← e)) p.kept).kept);
  }
    where
      step :
          (r : Result E A) (t : S) → P t → ((a : A) → r ≡ ok a → P (f a t).1) → P (continue r f t).1
      step (ok a) t q j = j a refl
      step (err e) t q j = q

  pub KeepsFrom-lift-bind :
      (r : Result E A) (f : A → Exec S E B) (s : S)
      → P s
      → ((a : A) → r ≡ ok a → KeepsFrom P s (f a))
      → KeepsFrom P s (lift r >>= f)
  unfolding lift ◌>>=◌
  KeepsFrom-lift-bind (ok a) f s p k = record { kept = (k a refl).kept }
  KeepsFrom-lift-bind (err e) f s p k = record { kept = p }
