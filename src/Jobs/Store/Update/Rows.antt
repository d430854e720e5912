-- ===== src/Jobs/Store/Update/Rows.antt =====
-- What becomes of each row in `compare_and_set` of cloud/src/jobs/store.py.
use get_receipt.Base.{
  ℕ, String, ◌≡◌, refl, sym, ap, ◌∙◌, subst, Bool, true, false, List, [], ◌∷◌, string_eq, ◌⊎◌, inl,
  inr, Bool-cases, ok, arith, eq_iff,
}
use get_receipt.Base.Text.{strip}
use get_receipt.Jobs.Payload.{Fields}
use get_receipt.Jobs.Model.{Job}
use get_receipt.Jobs.Store.Rows.{Db, JobRow, has_id, is_job_of, update_rows}
use get_receipt.Jobs.Store.Tables.{In, UniqueIds, find?-In, find?-unique, eq_self, eq_of_test}
use get_receipt.Jobs.Store.Invariant.{WellFormed, find?-IsValid}
use get_receipt.Jobs.Store.Invariant.Keeps.{is_version-OnlyId}
use get_receipt.Jobs.Store.Claim.{is_version}
use get_receipt.Jobs.Store.Update.{Patch, apply_patch, set_columns, compare_and_set}
use get_receipt.Jobs.Store.Update.Swap.{Met, compare_and_set-Ensures, changed_job, changed_row}

-- A row of an updated table: one that the test leaves, or the change of one that it meets.
update_rows-In :
    (test : JobRow → Bool) (change : Job → Job) (rows : List JobRow) (row : JobRow)
    → In row (update_rows test change rows)
    → (r : JobRow) × In r rows
      × (((test r ≡ false) × (row ≡ r))
          ⊎ ((test r ≡ true) × (row ≡ record r { job = change r.job })))
unfolding update_rows
update_rows-In test change [] row m = absurd m
update_rows-In test change (r ∷ rs) row (inl e) = elim (Bool-cases (test r)) [
  | inl t ↦ (r, inl refl, inr (t, rw t at e))
  | inr t ↦ (r, inl refl, inl (t, rw t at e))
]
update_rows-In test change (r ∷ rs) row (inr m) =
    let (q, member, what) = update_rows-In test change rs row m in (q, inr member, what)

-- Two rows of one identifier are the same row.
pub In-unique :
    (rows : List JobRow) (a b : JobRow)
    → UniqueIds rows
    → In a rows
    → In b rows
    → a.job.id ≡ b.job.id
    → a ≡ b
In-unique rows a b u m n e =
    let only = λ (r : JobRow) (t : has_id b.job.id r ≡ true). eq_of_test r.job.id b.job.id t in
    let found_a =
      find?-unique b.job.id (has_id b.job.id) only rows a u m e (rw e (eq_self b.job.id)) in
    let found_b = find?-unique b.job.id (has_id b.job.id) only rows b u n refl (eq_self b.job.id) in
    cc (found_a, found_b)

module _ (now expected : ℕ) (job_id owner : String) (patch : Patch) (event_type : String)
    (payload : Fields) where
  -- The row that the call has met, and the rows that it leaves: those of other identifiers, and the
  -- patched one.
  pub record Swapped (db : Db) (u : Job) (t : Db) : Type 0 where
    pub old : JobRow
    pub stored : In old db.jobs
    pub named : old.job.id ≡ job_id
    pub version : old.job.version ≡ expected
    pub returned : u ≡ apply_patch patch now old.job
    pub rows :
        (row : JobRow)
        → In row t.jobs
        → (In row db.jobs × (row.job.id ≡ job_id → ⊥)) ⊎ (row.job ≡ apply_patch patch now old.job)

  is_of_id : (row : JobRow) → is_job_of job_id (strip owner) row ≡ true → row.job.id ≡ job_id
  is_of_id row h = ground (arith, h, eq_iff row.job.id job_id)

  pub compare_and_set-Swapped :
      (db t : Db) (u : Job)
      → WellFormed db
      → compare_and_set now job_id owner expected patch event_type payload db ≡ (ok u, t)
      → Swapped db u t
  unfolding apply_patch
  compare_and_set-Swapped db t u w h =
      let m : Met now expected job_id owner patch event_type payload db u t =
        (compare_and_set-Ensures now expected job_id owner patch event_type payload db w).at u t
          h in
      let v = find?-IsValid _ db m.row w m.found in
      let e =
        changed_job now expected job_id owner patch event_type payload m.row u v
          m.accepted.checks in
      let (tested, columns) =
        changed_row now expected job_id owner patch event_type payload m.row u e
          m.accepted.version in
      let (stored, matches) = find?-In _ db.jobs m.row m.found in
      let named = is_of_id m.row matches in
      record {
        old = m.row;
        stored = stored;
        named = named;
        version = m.accepted.version;
        returned = e;
        rows = λ row member.
            let (r, at, what) =
              update_rows-In (is_version u expected) (set_columns u) db.jobs row
                (subst (λ (d : Db). In row d.jobs) m.accepted.tables member) in
            elim what [
              | inl (left, same) ↦ inl (
                subst (λ (x : JobRow). In x db.jobs) (sym same) at,
                λ f.
                    let same_row =
                      In-unique db.jobs r m.row w.ids at stored
                        (ap (λ (x : JobRow). x.job.id) (sym same) ∙ f ∙ sym named) in
                    clash (is_version u expected r) left (rw same_row tested),
              )
              | inr (met, same) ↦
                  let same_row =
                    In-unique db.jobs r m.row w.ids at stored
                      (is_version-OnlyId u expected r met ∙ ap (λ (j : Job). j.id) e) in
                  inr (
                    ap (λ (x : JobRow). x.job) same
                    ∙ (ap (λ (x : JobRow). set_columns u x.job) same_row ∙ columns ∙ e))
            ];
      }
    where
      clash : (b : Bool) → b ≡ false → b ≡ true → ⊥
      clash b p q = ground (arith, p, q)
