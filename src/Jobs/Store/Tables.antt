-- ===== src/Jobs/Store/Tables.antt =====
-- Lemmas on tables: what an update of the one row with a given identifier does.
use text.Mathlib.TextPositions.{eq_refl}
use mathlib.Core.Path.{subst}
use get_receipt.Base.{
  sym, ◌≤◌, suc, String, ◌≡◌, refl, ap, Bool, true, false, some, List, [], ◌∷◌, ◌==◌, string_eq,
  if◌then◌else◌, any, find?, filter, All, arith, eq_iff, Bool-cases, inl, inr, ◌⊎◌,
}
use get_receipt.Jobs.Model.{Job}
use get_receipt.Jobs.Store.Rows.{older, JobRow, has_id, update_rows, count_rows, pick, first_by}

-- A row stands in a table.
abbrev pub In : {A : Type 0} → A → List A → Type 0
In x [] = ⊥
In x (y ∷ ys) = (x ≡ y) ⊎ In x ys

module _ {A : Type 0} where
  pub In-All {κ} : (P : A → Type κ) (x : A) (xs : List A) → In x xs → All P xs → P x
  In-All P x [] m h = absurd m
  In-All P x (y ∷ ys) (inl e) h = rw e h.0
  In-All P x (y ∷ ys) (inr m) h = In-All P x ys m h.1

  pub find?-In : (p : A → Bool) (xs : List A) (x : A) → find? p xs ≡ some x → In x xs × (p x ≡ true)
  find?-In p [] x h = cc
  find?-In p (y ∷ ys) x h = ground (arith, find?-In p ys x)

  pub filter-In : (p : A → Bool) (xs : List A) (x : A) → In x (filter p xs) → In x xs × (p x ≡ true)
  filter-In p [] x m = absurd m
  filter-In p (y ∷ ys) x m = ground (arith, filter-In p ys x)

  pub In-filter : (p : A → Bool) (xs : List A) (x : A) → In x xs → p x ≡ true → In x (filter p xs)
  In-filter p [] x m t = m
  In-filter p (y ∷ ys) x m t = ground (arith, In-filter p ys x)

  pub pick-In : (before : A → A → Bool) (b : A) (xs : List A) → In (pick before b xs) (b ∷ xs)
  unfolding pick
  pick-In before b [] = inl refl
  pick-In before b (x ∷ xs) = ground (arith, pick-In before x xs, pick-In before b xs)

  pub first_by-In :
      (before : A → A → Bool) (xs : List A) (x : A) → first_by before xs ≡ some x → In x xs
  unfolding first_by
  first_by-In before [] x h = cc
  first_by-In before (y ∷ ys) x h =
      let e : pick before y ys ≡ x = cc in subst (λ z. In z (y ∷ ys)) e (pick-In before y ys)

pub eq_self : (s : String) → (s == s) ≡ true
eq_self s = eq_refl s

pub eq_of_test : (s t : String) → (s == t) ≡ true → s ≡ t
eq_of_test s t h = (eq_iff s t).0 h

-- No two rows have one identifier.
abbrev pub UniqueIds : List JobRow → Type 0
UniqueIds [] = Unit
UniqueIds (row ∷ rows) = (any (has_id row.job.id) rows ≡ false) × UniqueIds rows

-- A test that is met by rows of one identifier only.
abbrev pub OnlyId : String → (JobRow → Bool) → Type 0
OnlyId i test = (r : JobRow) → test r ≡ true → r.job.id ≡ i

pub any-In :
    (test : JobRow → Bool) (rows : List JobRow) (row : JobRow)
    → In row rows
    → test row ≡ true
    → any test rows ≡ true
any-In test [] row m t = absurd m
any-In test (r ∷ rs) row (inl e) t = rw (← e, t)
any-In test (r ∷ rs) row (inr m) t = ground (arith, any-In test rs row m t)

module _ (i : String) (test : JobRow → Bool) (only : OnlyId i test) (change : Job → Job) where
  -- Rows of other identifiers are left as they are.
  pub update_rows-none :
      (rows : List JobRow)
      → any (has_id i) rows ≡ false
      → (update_rows test change rows ≡ rows) × (count_rows test rows ≡ 0)
  unfolding update_rows count_rows
  update_rows-none [] h = (refl, refl)
  update_rows-none (r ∷ rs) h = ground (arith, update_rows-none rs, only r, eq_iff r.job.id i)

  pub count_rows-one :
      (rows : List JobRow) (row : JobRow)
      → UniqueIds rows
      → In row rows
      → row.job.id ≡ i
      → test row ≡ true
      → count_rows test rows ≡ 1
  unfolding count_rows
  count_rows-one [] row u m e t = absurd m
  count_rows-one (r ∷ rs) row u (inl q) e t =
      let none_left : any (has_id i) rs ≡ false = rw (← e, q) u.0 in
      rw (← q, t) (ap suc (update_rows-none rs none_left).1)
  count_rows-one (r ∷ rs) row u (inr m) e t = ground (
    arith,
    count_rows-one rs row u.1 m e t,
    only r,
    eq_iff row.job.id r.job.id,
    any-In (has_id r.job.id) rs row m,
  )

  -- A property of jobs that the change of the one row keeps.
  pub update_rows-All {κ} :
      (P : JobRow → Type κ) (rows : List JobRow) (row : JobRow)
      → UniqueIds rows
      → In row rows
      → row.job.id ≡ i
      → P (record row { job = change row.job })
      → All P rows
      → All P (update_rows test change rows)
  unfolding update_rows
  update_rows-All P [] row u m e p h = absurd m
  update_rows-All P (r ∷ rs) row u (inl q) e p h =
      let none_left : any (has_id i) rs ≡ false = rw (← e, q) u.0 in
      rw (update_rows-none rs none_left).0 (if_row (Bool-cases (test r)), h.1)
    where
      if_row :
          (test r ≡ true) ⊎ (test r ≡ false)
          → P (if test r then record r { job = change r.job } else r)
      if_row (inl t) = rw t (rw q at p)
      if_row (inr t) = rw t h.0
  update_rows-All P (r ∷ rs) row u (inr m) e p h =
      (if_row (Bool-cases (test r)), update_rows-All P rs row u.1 m e p h.1)
    where
      if_row :
          (test r ≡ true) ⊎ (test r ≡ false)
          → P (if test r then record r { job = change r.job } else r)
      if_row (inl t) =
          absurd (
            ground (arith, only r t, eq_iff row.job.id r.job.id, any-In (has_id r.job.id) rs row m))
      if_row (inr t) = rw t h.0

-- A change that keeps what a test reads moves through a search.
pub find?-update_rows :
    (p test : JobRow → Bool) (change : Job → Job)
    → ((r : JobRow) → p (record r { job = change r.job }) ≡ p r)
    → (rows : List JobRow) (row : JobRow) → find? p rows ≡ some row
    → find? p (update_rows test change rows)
      ≡ some (if test row then record row { job = change row.job } else row)
unfolding update_rows
find?-update_rows p test change same [] row h = cc
find?-update_rows p test change same (r ∷ rs) row h =
    ground (arith, same r, find?-update_rows p test change same rs row)

pub any-update_rows :
    (p test : JobRow → Bool) (change : Job → Job)
    → ((r : JobRow) → p (record r { job = change r.job }) ≡ p r)
    → (rows : List JobRow) → any p (update_rows test change rows) ≡ any p rows
unfolding update_rows
any-update_rows p test change same [] = refl
any-update_rows p test change same (r ∷ rs) =
    ground (arith, same r, any-update_rows p test change same rs)

-- The one row with an identifier is the one that a search by it finds.
pub find?-unique :
    (i : String) (p : JobRow → Bool)
    → OnlyId i p
    → (rows : List JobRow) (row : JobRow) → UniqueIds rows
    → In row rows
    → row.job.id ≡ i
    → p row ≡ true
    → find? p rows ≡ some row
find?-unique i p only [] row u m e t = absurd m
find?-unique i p only (r ∷ rs) row u (inl q) e t = rw (← q, t)
find?-unique i p only (r ∷ rs) row u (inr m) e t = ground (
  arith,
  find?-unique i p only rs row u.1 m e t,
  only r,
  eq_iff row.job.id r.job.id,
  any-In (has_id r.job.id) rs row m,
)

pick-cons :
    (b x c : JobRow) (rows : List JobRow)
    → (if older x b then x else b) ≡ c
    → pick older b (x ∷ rows) ≡ pick older c rows
unfolding pick
pick-cons b x c rows e = rw e

-- `c` was created no later than `b` and any of the rows.
abbrev NoOlder : JobRow → List JobRow → JobRow → Type 0
NoOlder b rows c =
    (c.job.created_at ≤ b.job.created_at)
    × All (λ (r : JobRow). c.job.created_at ≤ r.job.created_at) rows

NoOlder-cons :
    (a b x c : JobRow) (rows : List JobRow)
    → a.job.created_at ≤ b.job.created_at
    → a.job.created_at ≤ x.job.created_at
    → NoOlder a rows c
    → NoOlder b (x ∷ rows) c
NoOlder-cons a b x c rows p q h = (omega arith, (omega arith, h.1))

-- `ORDER BY created_at, id LIMIT 1` gives a row that no other precedes in time.
pick-oldest : (b : JobRow) (rows : List JobRow) → NoOlder b rows (pick older b rows)
pick-oldest b [] = unfold pick in (omega arith, tt)
pick-oldest b (x ∷ xs) = elim (Bool-cases (older x b)) [
  | inl e ↦
      subst (NoOlder b (x ∷ xs)) (sym (pick-cons b x x xs (rw e)))
        (NoOlder-cons x b x (pick older x xs) xs (ground arith) (omega arith) (pick-oldest x xs))
  | inr e ↦
      subst (NoOlder b (x ∷ xs)) (sym (pick-cons b x b xs (rw e)))
        (NoOlder-cons b b x (pick older b xs) xs (omega arith) (ground arith) (pick-oldest b xs))
]

pub first_by-oldest :
    (rows : List JobRow) (row : JobRow)
    → first_by older rows ≡ some row
    → All (λ (r : JobRow). row.job.created_at ≤ r.job.created_at) rows
unfolding first_by
first_by-oldest [] row h = cc
first_by-oldest (x ∷ xs) row h =
    let e : pick older x xs ≡ row = cc in
    subst (λ (c : JobRow). All (λ (r : JobRow). c.job.created_at ≤ r.job.created_at) (x ∷ xs)) e
      (pick-oldest x xs)
