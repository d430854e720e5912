-- ===== src/Worker/Ends.antt =====
-- The list of services still to try grows shorter with every pass of `_process_job` of
-- cloud/src/workers/runner.py.
pub mod Settled
pub mod Ticking
pub mod Owner
pub mod Expiry
pub mod Held
pub mod Response
pub mod Code
pub mod Services
pub mod Reads
pub mod Passes
pub mod Loop
pub mod Enough
use get_receipt.Base.{
  find?, map, ℕ, suc, ◌<◌, ◌≤◌, String, ◌≡◌, refl, sym, ap, ◌∙◌, subst, Bool, true, false, not,
  ◌&&◌, ◌||◌, Option, some, List, [], ◌∷◌, ◌==◌, string_eq, if◌then◌else◌, contains, all, filter,
  length, ok, ◌⊎◌, inl, inr, arith, eq_iff, Bool-cases,
}
use get_receipt.Jobs.Payload.{Fields}
use get_receipt.Jobs.Model.{Job, is_service_id}
use get_receipt.Worker.Failures.{service_failure_result, batch_result, with_item}
use get_receipt.Worker.Failures.Reread.{
  batch_result-read, batch_result-keeps, read_of, read_service,
}
use get_receipt.Worker.Remaining.{failed_ids, ids_of, is_open, Follows, Upward}

-- The services of the job are `services`, and the open ones are among `open_ids`.
pub record Fits (services open_ids : List String) (job : Job) : Type 0 where
  pub same : job.service_ids ≡ services
  pub within : (x : String) → is_open job x ≡ true → contains open_ids x ≡ true

pub Fits-Upward : (services open_ids : List String) → Upward (Fits services open_ids)
Fits-Upward services open_ids = record {
  at = λ a b f q. record { same = f.services ∙ q.same; within = λ x h. q.within x (f.shrinks x h) };
}

-- The job is still the one that was read, or a later version of it.
abbrev pub Since : Job → Job → Type 0
Since read job = (job ≡ read) ⊎ (read.version < job.version)

pub Since-Upward : (read : Job) → Upward (Since read)
Since-Upward read = record {
  at = λ a b f q. elim q [
    | inl e ↦ inr (subst (λ (j : Job). j.version < b.version) e f.later)
    | inr lt ↦ inr (omega (arith, lt, f.later))
  ];
}

pub Since-same : (read job : Job) → Since read job → job.version ≡ read.version → job ≡ read
Since-same read job (inl same) v = same
Since-same read job (inr lt) v = absurd (omega (arith, lt, v))

abbrev pub remove : String → List String → List String
remove x xs = filter (λ y. not (y == x)) xs

length-remove_le : (x : String) (xs : List String) → length (remove x xs) ≤ length xs
length-remove_le x [] = omega arith
length-remove_le x (y ∷ ys) = ground (arith, length-remove_le x ys)

pub length-remove :
    (x : String) (xs : List String) → contains xs x ≡ true → length (remove x xs) < length xs
length-remove x [] h = ground (arith, h)
length-remove x (y ∷ ys) h = ground (arith, length-remove x ys, length-remove_le x ys)

contains-remove :
    (x y : String) (xs : List String)
    → (x == y) ≡ false
    → contains xs y ≡ true
    → contains (remove x xs) y ≡ true
contains-remove x y [] n h = h
contains-remove x y (z ∷ zs) n h =
    ground (arith, n, h, contains-remove x y zs n, eq_iff z x, eq_iff z y, eq_iff x y)

contains-with_item :
    (xs : List String) (x y : String) → contains (with_item xs x) y ≡ (contains xs y || x == y)
unfolding with_item
contains-with_item [] x y = ground arith
contains-with_item (z ∷ zs) x y =
    ground (arith, contains-with_item zs x y, eq_iff z x, eq_iff z y, eq_iff x y)

pub with_item-apart :
    (xs : List String) (x y : String)
    → contains (with_item xs x) y ≡ false
    → (contains xs y ≡ false) × ((x == y) ≡ false)
with_item-apart xs x y h = ground (arith, h, contains-with_item xs x y)

pub find?-contains :
    (p : String → Bool) (xs : List String) (x : String)
    → find? p xs ≡ some x
    → (contains xs x ≡ true) × (p x ≡ true)
find?-contains p [] x h = ground (arith, h)
find?-contains p (y ∷ ys) x h = ground (arith, h, find?-contains p ys x, eq_iff y x)

all-contains :
    (p : String → Bool) (xs : List String) (y : String)
    → all p xs ≡ true
    → contains xs y ≡ true
    → p y ≡ true
all-contains p [] y a h = ground (arith, h)
all-contains p (x ∷ xs) y a h = elim (Bool-cases (x == y)) [
  | inl e ↦ subst (λ z. p z ≡ true) ((eq_iff x y).0 e) (ground (arith, a))
  | inr e ↦ all-contains p xs y (ground (arith, a)) (rw e at h)
]

-- A later job that has closed `x`, with the failed services of a batch result, has open services
-- other than `x` only.
pub Fits-closed :
    (services open_ids : List String) (current job : Job) (x : String)
    (completed failed failed' : List String) (failures' : Fields)
    → Fits services open_ids current
    → all is_service_id current.service_ids ≡ true
    → failed_ids current.result ≡ failed
    → ((y : String)
        → contains job.completed y ≡ false
        → contains failed' y ≡ false
        → (contains current.completed y ≡ false) × (contains failed y ≡ false) × ((x == y) ≡ false))
    → job.service_ids ≡ current.service_ids
    → failed_ids job.result ≡ (read_of completed failed' failures' (map read_service failed')).0
    → Fits services (remove x open_ids) job
Fits-closed services open_ids current job x completed failed failed' failures' fits valid before
      apart same after =
    record {
      same = same ∙ fits.same;
      within = λ y h.
          let mine : contains job.service_ids y ≡ true = ground (arith, h) in
          let listed = subst (λ (l : List String). contains l y ≡ true) same mine in
          let not_completed : contains job.completed y ≡ false = ground (arith, h) in
          let not_failed : contains (failed_ids job.result) y ≡ false = ground (arith, h) in
          let kept =
            batch_result-keeps completed failed' failures' y
              (all-contains is_service_id current.service_ids y valid listed) in
          let unnamed : contains failed' y ≡ false =
            contrapositive kept
              (subst (λ (l : List String). contains l y ≡ false) after not_failed) in
          let (p, q, r) = apart y not_completed unnamed in
          let open_failed = ap (λ (l : List String). contains l y) before ∙ q in
          contains-remove x y open_ids r (fits.within y (rw (listed, p, open_failed) refl));
    }
  where
    contrapositive : {a b : Bool} → (a ≡ true → b ≡ true) → b ≡ false → a ≡ false
    contrapositive {a = true} h k = absurd (ground (arith, h refl, k))
    contrapositive {a = false} h k = refl
