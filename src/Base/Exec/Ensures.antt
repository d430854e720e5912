-- ===== src/Base/Exec/Ensures.antt =====
-- What holds when a method returns, one rule for each way to build a method.
use mathlib.Core.Path.{◌≡◌, refl, subst, subst₂}
use mathlib.Core.Bool.{Bool, true, false}
use get_receipt.Base.Tests.{if◌then◌else◌}
use native.Mathlib.Omega.{arith}
use get_receipt.Base.Raising.{Result, ok, err}
use get_receipt.Base.Exec.{Exec, pure, lift, gets, modify, transaction, rollback, continue, ◌>>=◌}

-- From the state `s`, whatever `m` returns and the state that it leaves satisfy `Q`.
pub record Ensures {ℓ κ} {S E A : Type ℓ} (m : Exec S E A) (s : S) (Q : A → S → Type κ)
    : Type (ℓ ⊔ κ) where
  pub at : (a : A) (t : S) → m s ≡ (ok a, t) → Q a t

module _ {ℓ} {S E A : Type ℓ} where
  rollback-ok :
      (s : S) (r : Result E A × S) (a : A) (t : S) → rollback s r ≡ (ok a, t) → r ≡ (ok a, t)
  rollback-ok s (ok b, u) a t h = h
  rollback-ok s (err e, u) a t h = cc

module _ {ℓ} {S E A : Type ℓ} {Q : A → S → Type ℓ} where
  pub Ensures-pure : (a : A) (s : S) → Q a s → Ensures {E = E} (pure a) s Q
  unfolding pure
  Ensures-pure a s q = record {
    at = λ b t h. let e : a ≡ b = cc h in let f : s ≡ t = cc h in subst₂ Q e f q;
  }

  pub Ensures-gets : (g : S → A) (s : S) → Q (g s) s → Ensures {E = E} (gets g) s Q
  unfolding gets
  Ensures-gets g s q = record {
    at = λ b t h. let e : g s ≡ b = cc h in let f : s ≡ t = cc h in subst₂ Q e f q;
  }

  pub Ensures-lift : (r : Result E A) (s : S) → ((a : A) → r ≡ ok a → Q a s) → Ensures (lift r) s Q
  unfolding lift
  Ensures-lift r s q = record {
    at = λ b t h. let e : r ≡ ok b = cc h in let f : s ≡ t = cc h in subst (Q b) f (q b e);
  }

  pub Ensures-cond :
      (b : Bool) {m n : Exec S E A} (s : S)
      → Ensures m s Q
      → Ensures n s Q
      → Ensures (elim b [ true ↦ m | false ↦ n ]) s Q
  Ensures-cond true s h k = h
  Ensures-cond false s h k = k

  pub Ensures-if :
      (b : Bool) {m n : Exec S E A} (s : S)
      → Ensures m s Q
      → Ensures n s Q
      → Ensures (if b then m else n) s Q
  Ensures-if true s h k = h
  Ensures-if false s h k = k

  pub Ensures-transaction : (m : Exec S E A) (s : S) → Ensures m s Q → Ensures (transaction m) s Q
  unfolding transaction
  Ensures-transaction m s q = record { at = λ a t h. q.at a t (rollback-ok s (m s) a t h) }

module _ {ℓ} {S E A B : Type ℓ} {Q : B → S → Type ℓ} where
  pub Ensures-bind :
      (m : Exec S E A) (f : A → Exec S E B) (s : S)
      → ((a : A) (t : S) → m s ≡ (ok a, t) → Ensures (f a) t Q)
      → Ensures (m >>= f) s Q
  unfolding ◌>>=◌
  Ensures-bind m f s q = record {
    at = λ b u h. step (m s).0 (m s).1 (λ a e. q a (m s).1 (rw (← e))) b u h;
  }
    where
      step :
          (r : Result E A) (t : S)
          → ((a : A) → r ≡ ok a → Ensures (f a) t Q)
          → (b : B) (u : S) → continue r f t ≡ (ok b, u)
          → Q b u
      step (ok a) t k b u h = (k a refl).at b u h
      step (err e) t k b u h = cc

  pub Ensures-lift-bind :
      (r : Result E A) (f : A → Exec S E B) (s : S)
      → ((a : A) → r ≡ ok a → Ensures (f a) s Q)
      → Ensures (lift r >>= f) s Q
  unfolding lift ◌>>=◌
  Ensures-lift-bind (ok a) f s q = q a refl
  Ensures-lift-bind (err e) f s q = record { at = λ b u h. cc }

  pub Ensures-gets-bind :
      (g : S → A) (f : A → Exec S E B) (s : S) → Ensures (f (g s)) s Q → Ensures (gets g >>= f) s Q
  unfolding gets ◌>>=◌
  Ensures-gets-bind g f s q = record { at = λ b u h. q.at b u h }

module _ {ℓ} {S E B : Type ℓ} {Q : B → S → Type ℓ} where
  pub Ensures-modify-bind :
      (g : S → S) (f : Unit {ℓ} → Exec S E B) (s : S)
      → Ensures (f tt) (g s) Q
      → Ensures (modify g >>= f) s Q
  unfolding modify ◌>>=◌
  Ensures-modify-bind g f s q = record { at = λ b u h. q.at b u h }

module _ {ℓ} {S E : Type ℓ} where
  pub Ensures-modify : (g : S → S) (s : S) → Ensures {E = E} (modify g) s (λ u t. t ≡ g s)
  unfolding modify
  Ensures-modify g s = record { at = λ u t h. ground (arith, h) }
