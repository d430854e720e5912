-- ===== src/Drive/Order.antt =====
-- Python's order of sequences.
use get_receipt.Base.{
  subst, sym, ◌∙◌, ◌⊎◌, Bool, true, false, ◌&&◌, ◌||◌, List, [], ◌∷◌, ◌≡◌, refl, arith, Bool-cases,
  inl, inr,
}

module _ {A : Type 0} (lt eq : A → A → Bool) where
  -- `xs < ys`.
  unfoldable pub lex : List A → List A → Bool
  lex xs [] = false
  lex [] (y ∷ ys) = true
  lex (x ∷ xs) (y ∷ ys) = lt x y || eq x y && lex xs ys

-- A strict total order, and a test of equality.
pub record Ordered {A : Type 0} (lt : A → A → Bool) : Type 0 where
  pub trans : (a b c : A) → lt a b ≡ true → lt b c ≡ true → lt a c ≡ true
  pub tri : (a b : A) → (lt a b ≡ true) ⊎ ((a ≡ b) ⊎ (lt b a ≡ true))
  pub irrefl : (a : A) → lt a a ≡ false

pub record Equal {A : Type 0} (eq : A → A → Bool) : Type 0 where
  pub sound : (a b : A) → eq a b ≡ true → a ≡ b
  pub same : (a : A) → eq a a ≡ true

module _ {A : Type 0} {lt eq : A → A → Bool} (o : Ordered lt) (q : Equal eq) where
  first_lt : (a b : A) (c : Bool) → lt a b ≡ true → (lt a b || eq a b && c) ≡ true
  first_lt a b c h = rw h refl

  rest_lt : (a b : A) (c : Bool) → a ≡ b → c ≡ true → (lt a b || eq a b && c) ≡ true
  rest_lt a b c e h =
      let f : eq a b ≡ true = subst (λ x. eq a x ≡ true) e (q.same a) in ground (arith, f, h)

  split_lt :
      (a b : A) (c : Bool)
      → (lt a b || eq a b && c) ≡ true
      → (lt a b ≡ true) ⊎ ((a ≡ b) × (c ≡ true))
  split_lt a b c h = elim (Bool-cases (lt a b)) [
    | inl e ↦ inl e
    | inr e ↦ inr (q.sound a b (left (eq a b) c (rw e at h)), right (eq a b) c (rw e at h))
  ]
    where
      left : (p q : Bool) → (p && q) ≡ true → p ≡ true
      left p q h = ground (arith, h)

      right : (p q : Bool) → (p && q) ≡ true → q ≡ true
      right p q h = ground (arith, h)

  lex_trans :
      (xs ys zs : List A) → lex lt eq xs ys ≡ true → lex lt eq ys zs ≡ true → lex lt eq xs zs ≡ true
  unfolding lex
  lex_trans xs [] zs h k = ground (arith, h)
  lex_trans xs (y ∷ ys) [] h k = ground (arith, k)
  lex_trans [] (y ∷ ys) (z ∷ zs) h k = refl
  lex_trans (x ∷ xs) (y ∷ ys) (z ∷ zs) h k = elim (split_lt x y _ h) [
    | inl a ↦ elim (split_lt y z _ k) [
      | inl b ↦ first_lt x z _ (o.trans x y z a b)
      | inr (e, b) ↦ first_lt x z _ (subst (λ w. lt x w ≡ true) e a)
    ]
    | inr (d, a) ↦ elim (split_lt y z _ k) [
      | inl b ↦ first_lt x z _ (subst (λ w. lt w z ≡ true) (sym d) b)
      | inr (e, b) ↦ rest_lt x z _ (d ∙ e) (lex_trans xs ys zs a b)
    ]
  ]

  lex-tri : (xs ys : List A) → (lex lt eq xs ys ≡ true) ⊎ ((xs ≡ ys) ⊎ (lex lt eq ys xs ≡ true))
  unfolding lex
  lex-tri [] [] = inr (inl refl)
  lex-tri [] (y ∷ ys) = inl refl
  lex-tri (x ∷ xs) [] = inr (inr refl)
  lex-tri (x ∷ xs) (y ∷ ys) = elim (o.tri x y) [
    | inl a ↦ inl (first_lt x y _ a)
    | inr (inr a) ↦ inr (inr (first_lt y x _ a))
    | inr (inl e) ↦ elim (lex-tri xs ys) [
      | inl a ↦ inl (rest_lt x y _ e a)
      | inr (inl f) ↦ inr (inl (cc (e, f)))
      | inr (inr a) ↦ inr (inr (rest_lt y x _ (sym e) a))
    ]
  ]

  lex_irrefl : (xs : List A) → lex lt eq xs xs ≡ false
  unfolding lex
  lex_irrefl [] = refl
  lex_irrefl (x ∷ xs) = rw (o.irrefl x, q.same x) (lex_irrefl xs)

  -- Sequences are ordered as their elements are.
  pub lex-Ordered : Ordered (lex lt eq)
  lex-Ordered = record { trans = lex_trans; tri = lex-tri; irrefl = lex_irrefl }

pub not-lt :
    {A : Type 0} {lt : A → A → Bool}
    → Ordered lt
    → (a b c : A) → lt a b ≡ false
    → lt b c ≡ false
    → lt a c ≡ false
not-lt {lt = lt} o a b c h k = elim (Bool-cases (lt a c)) [
  | inr e ↦ e
  | inl e ↦ elim (o.tri b c) [
    | inl f ↦ absurd (differ _ f k)
    | inr (inl f) ↦ absurd (differ _ (subst (λ x. lt a x ≡ true) (sym f) e) h)
    | inr (inr f) ↦ absurd (differ _ (o.trans a c b e f) h)
  ]
]
  where
    differ : (b : Bool) → b ≡ true → b ≡ false → ⊥
    differ b e f = ground (arith, e, f)
