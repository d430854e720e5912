-- ===== src/Jobs/Model/Accepted.antt =====
-- The checks of `BatchJob.__post_init__` in cloud/src/jobs/models.py, as conditions on the fields.
use get_receipt.Base.{
  ℕ, ◌+◌, ◌-◌, ◌*◌, ◌≤◌, String, ◌≡◌, ◌≢◌, ◌↔◌, ◌⊎◌, inl, inr, refl, sym, ap, subst, ◌∙◌, Bool,
  true, false, not, ◌&&◌, Option, none, some, List, [], ◌∷◌, Has, here, there, All, all, length,
  contains, distinct, Result, ok, err, is_ok, arith, Bool-cases, eq_iff, string_eq, leb, ◌==◌,
  nat_eq,
}
use get_receipt.Base.Text.{codes, strip, is_empty, is_service_char, is_word}
use get_receipt.Jobs.Payload.{JobError, Fields, dict, assert_public_payload}
use get_receipt.Jobs.Payload.Public.{keys, allowed, is_plain, assert_public_payload-keys}
use get_receipt.Jobs.Model.Valid.{validate-eq, validate-check_job, validate-nonempty}
use get_receipt.Jobs.Model.{
  Job, is_month_text, is_target_month, is_service_id, list_is_empty, is_current_of,
  assert_public_optional, require_nonempty, check_services, check_job, validate,
}

abbrev pub Member : String → List String → Type 0
Member x xs = Has (λ y. y ≡ x) xs

-- No element stands twice.
abbrev pub Apart : List String → Type 0
Apart [] = Unit
Apart (x ∷ xs) = (¬ Member x xs) × Apart xs

abbrev pub Digit : ℕ → Type 0
Digit c = (b'0' ≤ c) × (c ≤ b'9')

-- A year of four digits, a dash, and a month from 01 to 12.
pub record MonthText (cs : List ℕ) : Type 0 where
  pub year : ℕ × ℕ × ℕ × ℕ
  pub tens : ℕ
  pub ones : ℕ
  pub same : cs ≡ year.0 ∷ year.1 ∷ year.2 ∷ year.3 ∷ b'-' ∷ tens ∷ ones ∷ []
  pub digits : Digit year.0 × Digit year.1 × Digit year.2 × Digit year.3 × Digit tens × Digit ones
  pub least : 1 ≤ (tens - b'0') * 10 + (ones - b'0')
  pub most : (tens - b'0') * 10 + (ones - b'0') ≤ 12

abbrev pub ServiceChar : ℕ → Type 0
ServiceChar c = ((b'a' ≤ c) × (c ≤ b'z')) ⊎ Digit c ⊎ (c ≡ b'_') ⊎ (c ≡ b'-')

abbrev pub ServiceWord : String → Type 0
ServiceWord s = (1 ≤ length (codes s)) × (length (codes s) ≤ 64) × All ServiceChar (codes s)

abbrev pub PublicFields : Option Fields → Type 0
PublicFields none = Unit
PublicFields (some fields) = (all allowed (keys (dict fields)) && is_plain (dict fields)) ≡ true

-- What the construction of a job asks of its fields.
pub record Accepted (j : Job) : Type 0 where
  pub owner : strip j.owner ≢ ""
  pub month : MonthText (codes j.target_month)
  pub nonempty : j.service_ids ≢ []
  pub apart : Apart j.service_ids
  pub words : All ServiceWord j.service_ids
  pub completed : Apart j.completed
  pub among : (x : String) → Member x j.completed → Member x j.service_ids
  pub current : (x : String) → j.current ≡ some x → Member x j.service_ids
  pub ordered : j.created_at ≤ j.updated_at
  pub error : PublicFields j.error
  pub result : PublicFields j.result

is_month_text-MonthText : (cs : List ℕ) → (is_month_text cs ≡ true) ↔ MonthText cs
unfolding is_month_text
is_month_text-MonthText cs =
    (read cs, λ t. subst (λ cs. is_month_text cs ≡ true) (sym t.same) (back t))
  where
    read : (cs : List ℕ) → is_month_text cs ≡ true → MonthText cs
    read (a ∷ b ∷ c ∷ d ∷ dash ∷ m ∷ n ∷ []) h = record {
      year = (a, b, c, d);
      tens = m;
      ones = n;
      same = ap (λ x. a ∷ b ∷ c ∷ d ∷ x ∷ m ∷ n ∷ []) (ground (arith, h));
      digits = (
        (ground (arith, h), ground (arith, h)),
        (ground (arith, h), ground (arith, h)),
        (ground (arith, h), ground (arith, h)),
        (ground (arith, h), ground (arith, h)),
        (ground (arith, h), ground (arith, h)),
        (ground (arith, h), ground (arith, h)),
      );
      least = ground (arith, h);
      most = ground (arith, h);
    }
    read _ h = cc h

    back :
        (t : MonthText cs)
        → is_month_text (t.year.0 ∷ t.year.1 ∷ t.year.2 ∷ t.year.3 ∷ b'-' ∷ t.tens ∷ t.ones ∷ [])
          ≡ true
    back t = ground (arith, t.digits, t.least, t.most)

contains_found : (xs : List String) (x : String) → contains xs x ≡ true → Member x xs
contains_found [] x h = cc h
contains_found (y ∷ xs) x h = elim (Bool-cases (y == x)) [
  | inl e ↦ here ((eq_iff y x).0 e)
  | inr e ↦ there (contains_found xs x (ground (arith, h, e)))
]

contains_held : (xs : List String) (x : String) → Member x xs → contains xs x ≡ true
contains_held [] x m = elim m [ ]
contains_held (y ∷ xs) x (here e) = ground (arith, (eq_iff y x).1 e)
contains_held (y ∷ xs) x (there k) = ground (arith, contains_held xs x k)

contains-Member : (xs : List String) (x : String) → (contains xs x ≡ true) ↔ Member x xs
contains-Member xs x = (contains_found xs x, contains_held xs x)

distinct-Apart : (xs : List String) → (distinct xs ≡ true) ↔ Apart xs
distinct-Apart [] = (λ h. tt, λ h. refl)
distinct-Apart (x ∷ xs) = (
  λ h. (λ m. clash h ((contains-Member xs x).1 m), (distinct-Apart xs).0 (ground (arith, h))),
  λ (n, a). rw (absent n, (distinct-Apart xs).1 a) refl,
)
  where
    clash : distinct (x ∷ xs) ≡ true → contains xs x ≡ true → ⊥
    clash h k = ground (arith, h, k)

    absent : (¬ Member x xs) → contains xs x ≡ false
    absent n = elim (Bool-cases (contains xs x)) [
      | inl e ↦ absurd (n ((contains-Member xs x).0 e))
      | inr e ↦ e
    ]

all-All :
    {A : Type 0} (p : A → Bool) (P : A → Type 0)
    → ((c : A) → (p c ≡ true) ↔ P c)
    → (cs : List A) → (all p cs ≡ true) ↔ All P cs
all-All p P f [] = (λ h. tt, λ h. refl)
all-All p P f (c ∷ cs) = (
  λ h. ((f c).0 (ground (arith, h)), (all-All p P f cs).0 (ground (arith, h))),
  λ (q, qs). rw ((f c).1 q, (all-All p P f cs).1 qs) refl,
)

is_service_char-ServiceChar : (c : ℕ) → (is_service_char c ≡ true) ↔ ServiceChar c
unfolding is_service_char
is_service_char-ServiceChar c = (λ h. ground (arith, h), λ h. ground (arith, h))

is_service_id-ServiceWord : (s : String) → (is_service_id s ≡ true) ↔ ServiceWord s
unfolding is_service_id is_word
is_service_id-ServiceWord s = (
  λ h. (
    ground (arith, h),
    ground (arith, h),
    (all-All is_service_char ServiceChar is_service_char-ServiceChar (codes s)).0
        (ground (arith, h)),
  ),
  λ (least, most, chars). ground (
    arith,
    least,
    most,
    (all-All is_service_char ServiceChar is_service_char-ServiceChar (codes s)).1 chars,
  ),
)

assert_public_optional-PublicFields :
    (o : Option Fields) → (assert_public_optional o ≡ ok tt) ↔ PublicFields o
unfolding assert_public_optional
assert_public_optional-PublicFields none = (λ h. tt, λ h. refl)
assert_public_optional-PublicFields (some fields) = (
  λ h. sym (assert_public_payload-keys fields) ∙ ap is_ok h,
  λ h. of_is_ok (assert_public_payload fields) (assert_public_payload-keys fields ∙ h),
)
  where
    of_is_ok : (r : Result JobError (Unit {0})) → is_ok r ≡ true → r ≡ ok tt
    of_is_ok (ok tt) h = refl
    of_is_ok (err e) h = cc h

all_among :
    (xs ys : List String) (x : String) → all (contains ys) xs ≡ true → Member x xs → Member x ys
all_among [] ys x h m = elim m [ ]
all_among (y ∷ xs) ys x h (here e) =
    subst (λ z. Member z ys) e ((contains-Member ys y).0 (ground (arith, h)))
all_among (y ∷ xs) ys x h (there k) = all_among xs ys x (ground (arith, h)) k

among_all :
    (xs ys : List String) → ((x : String) → Member x xs → Member x ys) → all (contains ys) xs ≡ true
among_all [] ys k = refl
among_all (x ∷ xs) ys k =
    rw ((contains-Member ys x).1 (k x (here refl)), among_all xs ys (λ y m. k y (there m))) refl

all-Member :
    (xs ys : List String)
    → (all (contains ys) xs ≡ true) ↔ ((x : String) → Member x xs → Member x ys)
all-Member xs ys = (λ h x. all_among xs ys x h, among_all xs ys)

is_current_of-Member :
    (ys : List String) (o : Option String)
    → (is_current_of ys o ≡ true) ↔ ((x : String) → o ≡ some x → Member x ys)
is_current_of-Member ys none = (λ h x e. cc e, λ h. refl)
is_current_of-Member ys (some y) =
    (λ h x e. (contains-Member ys x).0 (rw (← same e) h), λ k. (contains-Member ys y).1 (k y refl))
  where
    same : {x : String} → some y ≡ some x → y ≡ x
    same e = cc e

nonempty_text : (s : String) → (is_empty s ≡ false) ↔ (s ≢ "")
nonempty_text String.[] = (λ h. cc h, λ n. absurd (n refl))
nonempty_text (String.◌∷◌ c s) = (λ h e. cc e, λ n. refl)

nonempty_list : (xs : List String) → (not (list_is_empty xs) ≡ true) ↔ (xs ≢ [])
nonempty_list [] = (λ h. cc h, λ n. absurd (n refl))
nonempty_list (x ∷ xs) = (λ h e. cc e, λ n. refl)

validated : (j k : Job) → validate j ≡ ok k → Accepted j
unfolding is_target_month check_services check_job
validated j k h =
    let checks = validate-check_job j k h in
    record {
      owner = (nonempty_text (strip j.owner)).0 (validate-nonempty j k h);
      month = (is_month_text-MonthText (codes j.target_month)).0 (ground (arith, checks));
      nonempty = (nonempty_list j.service_ids).0 (ground (arith, checks));
      apart = (distinct-Apart j.service_ids).0 (ground (arith, checks));
      words =
          (all-All is_service_id ServiceWord is_service_id-ServiceWord j.service_ids).0
            (ground (arith, checks));
      completed = (distinct-Apart j.completed).0 (ground (arith, checks));
      among = (all-Member j.completed j.service_ids).0 (ground (arith, checks));
      current = (is_current_of-Member j.service_ids j.current).0 (ground (arith, checks));
      ordered = ground (arith, checks);
      error = (assert_public_optional-PublicFields j.error).0 (ground (arith, checks));
      result = (assert_public_optional-PublicFields j.result).0 (ground (arith, checks));
    }

accepted : (j : Job) → Accepted j → validate j ≡ ok (record j { owner = strip j.owner })
unfolding validate require_nonempty check_job check_services is_target_month
accepted j a =
    rw
      (
        (nonempty_text (strip j.owner)).1 a.owner,
        (is_month_text-MonthText (codes j.target_month)).1 a.month,
        (nonempty_list j.service_ids).1 a.nonempty,
        (distinct-Apart j.service_ids).1 a.apart,
        (all-All is_service_id ServiceWord is_service_id-ServiceWord j.service_ids).1 a.words,
        (distinct-Apart j.completed).1 a.completed,
        (all-Member j.completed j.service_ids).1 a.among,
        (is_current_of-Member j.service_ids j.current).1 a.current,
        leb-true j.created_at j.updated_at a.ordered,
        (assert_public_optional-PublicFields j.error).1 a.error,
        (assert_public_optional-PublicFields j.result).1 a.result,
      )
      refl
  where
    leb-true : (a b : ℕ) → a ≤ b → leb a b ≡ true
    leb-true a b le = ground (arith, le)

-- A job is constructed exactly when its owner is not blank, its month is a year of four digits and a
-- month from 01 to 12, its services are some distinct words of 1 to 64 lower-case letters, digits, "_"
-- and "-", its completed services are distinct and among them, as its current service is, it was not
-- updated before it was created, and its error and result hold no forbidden key and no value of an
-- unsupported type; the construction strips the owner and leaves the other fields as they are.
pub validate-Accepted :
    (j k : Job) → (validate j ≡ ok k) ↔ (Accepted j × (k ≡ record j { owner = strip j.owner }))
validate-Accepted j k =
    (λ h. (validated j k h, validate-eq j k h), λ (a, e). accepted j a ∙ ap ok (sym e))
