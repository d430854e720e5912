-- ===== src/Service/Cancelled.antt =====
-- The cancellation of a job by its owner.
use get_receipt.Base.{
  ℕ, suc, String, Bool, true, false, none, some, Option, List, [], ◌∷◌, ◌++◌, Result, ok, ◌≡◌, ◌≢◌,
  ◌≤◌, ◌⊎◌, inl, inr, ◌∙◌, refl, ap, sym, subst, Bool-cases, ◌==◌, string_eq, beq-true,
}
use get_receipt.Base.Text.{strip, is_empty}
use get_receipt.Base.Exec.{Exec, ◌>>=◌, pure, lift}
use get_receipt.Jobs.Payload.{assert_public_payload, field, text, bool, end}
use get_receipt.Jobs.Model.{
  Job, JobState, queued, running, succeeded, failed, intervention_required, cancelled, state_eq,
  waiting_for_challenge,
}
use get_receipt.Jobs.Model.Valid.{IsValid, IsValid-read, IsValid-owner}
use get_receipt.Jobs.Model.Accepted.{Accepted, validate-Accepted}
use get_receipt.Jobs.Store.Rows.{Db, Event}
use get_receipt.Jobs.Store.Create.{get_job}
use get_receipt.Jobs.Store.Invariant.{WellFormed, find?-IsValid}
use get_receipt.Jobs.Store.Update.{apply_patch, compare_and_set}
use get_receipt.Jobs.Store.Update.Outcome.{updated_db}
use get_receipt.Jobs.Store.Update.Swap.{
  compare_and_set_fresh, compare_and_set-get_job, get_job-Ensures,
}
use get_receipt.Service.{Fault, Shared, is_terminal, require_owner, job_of, on_store}
use get_receipt.Service.Challenges.{
  cancel_job, cancel_rounds, cancel_round, cancel_unless, try_cancel, settle, to_cancelled,
  cancel_payload,
}

abbrev pub Over : JobState → Type 0
Over state =
    (state ≡ succeeded) ⊎ (state ≡ failed) ⊎ (state ≡ intervention_required) ⊎ (state ≡ cancelled)

-- The job `job` is `j` as its owner has cancelled it at `now`.
pub record CancelledFrom (now : ℕ) (j job : Job) : Type 0 where
  pub state : job.state ≡ cancelled
  pub current : job.current ≡ none
  pub error :
      job.error
      ≡ some (
          field "code"
            (text "CANCELLED_BY_OWNER")
            (field "message" (text "iPhoneから自動取得を中止しました。") (field "retryable" (bool true) end)))
  pub version : job.version ≡ suc j.version
  pub time : job.updated_at ≡ now
  pub named : (job.id ≡ j.id) × (job.owner ≡ j.owner)
  pub asked : (job.target_month ≡ j.target_month) × (job.service_ids ≡ j.service_ids)
  pub kept :
      (job.completed ≡ j.completed) × (job.result ≡ j.result) × (job.created_at ≡ j.created_at)

-- A call on the tables `db` and the inbox of `s` has cancelled `j`, for readers too, and has recorded it.
pub record Withdrawn (own : String) (now : ℕ) (db : Db) (s : Shared) (j : Job)
    (outcome : Result Fault (Option Job) × Shared) : Type 0 where
  pub job : Job
  pub changed : CancelledFrom now j job
  pub returned : outcome.0 ≡ ok (some job)
  pub read : get_job j.id own outcome.1.db ≡ (ok job, outcome.1.db)
  pub event : Event
  pub recorded : outcome.1.db.events ≡ db.events ++ event ∷ []
  pub about :
      (event.job_id ≡ j.id)
      × (event.event_type ≡ "job_cancelled")
      × (event.payload ≡ field "reason_code" (text "CANCELLED_BY_OWNER") end)
  pub inbox : outcome.1.inbox ≡ s.inbox

payload_public : (own : String) → assert_public_payload (cancel_payload own) ≡ ok tt
unfolding assert_public_payload get_receipt.Jobs.Payload.is_forbidden_key strip
payload_public own = refl

event_named : is_empty (strip "job_cancelled") ≡ false
unfolding strip
event_named = refl

-- After a method that returns.
bind-ok :
    {S E A B : Type 0} (m : Exec S E A) (f : A → Exec S E B) (s : S) (a : A) (t : S)
    → m s ≡ (ok a, t)
    → (m >>= f) s ≡ f a t
unfolding ◌>>=◌
bind-ok m f s a t h = rw h refl

-- What a reader of well-formed tables gets has passed its checks.
get_job-IsValid :
    (job_id own : String) (db : Db) (j : Job)
    → WellFormed db
    → get_job job_id own db ≡ (ok j, db)
    → IsValid j
unfolding get_receipt.Jobs.Store.Rows.job_from_row
get_job-IsValid job_id own db j w g =
    let m = (get_job-Ensures job_id own db).at j db g in
    let v = find?-IsValid _ db m.row w m.found in
    subst IsValid (sym (IsValid-read m.row.job j v m.read)) v

module _ (own : String) (now : ℕ) (j : Job) where
  abbrev withdrawn : Job
  withdrawn = apply_patch (to_cancelled own) now j

  withdrawn-Accepted : Accepted j → j.created_at ≤ now → Accepted withdrawn
  unfolding apply_patch get_receipt.Jobs.Payload.Public.keys
      get_receipt.Jobs.Payload.Public.is_plain get_receipt.Jobs.Payload.is_forbidden_key strip
  withdrawn-Accepted a le = record {
    owner = a.owner;
    month = a.month;
    nonempty = a.nonempty;
    apart = a.apart;
    words = a.words;
    completed = a.completed;
    among = a.among;
    current = λ x e. cc e;
    ordered = le;
    error = refl;
    result = a.result;
  }

  withdrawn-IsValid : IsValid j → j.created_at ≤ now → IsValid withdrawn
  unfolding apply_patch
  withdrawn-IsValid v le = (validate-Accepted withdrawn withdrawn).1 (
    withdrawn-Accepted ((validate-Accepted j j).0 v).0 le,
    ap (λ o. record withdrawn { owner = o }) (sym (IsValid-owner j v)),
  )

  withdrawn-CancelledFrom : CancelledFrom now j withdrawn
  unfolding apply_patch
  withdrawn-CancelledFrom = record {
    state = refl;
    current = refl;
    error = refl;
    version = refl;
    time = refl;
    named = (refl, refl);
    asked = (refl, refl);
    kept = (refl, refl, refl);
  }

module _ (own : String) (now : ℕ) (others : Db → Db) (s : Shared) (j : Job)
    (w : WellFormed (others s.db)) (g : get_job j.id own s.db ≡ (ok j, s.db))
    (g' : get_job j.id own (others s.db) ≡ (ok j, others s.db))
    (passes : IsValid (withdrawn own now j)) where
  abbrev after : Shared
  after = record s {
    db =
        updated_db now j.version (to_cancelled own) "job_cancelled" (cancel_payload own)
          (apply_patch (to_cancelled own) now j) (others s.db);
  }

  job_of_found : job_of own j.id s ≡ (ok j, s)
  unfolding job_of on_store
  job_of_found = rw (g, job_of) refl

  try_cancel_done :
      try_cancel own now others j s ≡ (ok (ok (apply_patch (to_cancelled own) now j)), after)
  unfolding try_cancel
  try_cancel_done =
      rw
        (
          compare_and_set_fresh now j.version j.id own (to_cancelled own) "job_cancelled"
              (cancel_payload own) (others s.db) j w (payload_public own) event_named g' passes,
          try_cancel,
        )
        refl

  settle_done :
      (u : Job) (t : Shared)
      → (j.state == waiting_for_challenge) ≡ false
      → settle own j (ok u) t ≡ (ok (some u), t)
  unfolding settle pure
  settle_done u t free = rw free refl

  decided :
      (b : Bool)
      → b ≡ false
      → (j.state == waiting_for_challenge) ≡ false
      → cancel_unless own now others j b s
        ≡ (ok (some (apply_patch (to_cancelled own) now j)), after)
  unfolding ◌>>=◌ cancel_unless
  decided true h free = cc
  decided false h free =
      bind-ok (try_cancel own now others j) (settle own j) s _ _ try_cancel_done
      ∙ settle_done (apply_patch (to_cancelled own) now j) after free

  cancel_round_done :
      is_terminal j.state ≡ false
      → (j.state == waiting_for_challenge) ≡ false
      → cancel_round own now others j.id s
        ≡ (ok (some (apply_patch (to_cancelled own) now j)), after)
  unfolding cancel_round ◌>>=◌
  cancel_round_done active free =
      bind-ok (job_of own j.id) (λ job. cancel_unless own now others job (is_terminal job.state)) s
        _ _ job_of_found
      ∙ decided (is_terminal j.state) active free

  swapped :
      compare_and_set now j.id own j.version
        (to_cancelled own)
        "job_cancelled"
        (cancel_payload own)
        (others s.db)
      ≡ (ok (withdrawn own now j), after.db)
  swapped =
      compare_and_set_fresh now j.version j.id own (to_cancelled own) "job_cancelled"
        (cancel_payload own) (others s.db) j w (payload_public own) event_named g' passes

  after-Withdrawn : Withdrawn own now (others s.db) s j (ok (some (withdrawn own now j)), after)
  unfolding strip
  after-Withdrawn =
      let read =
        compare_and_set-get_job now j.version j.id own (to_cancelled own) "job_cancelled"
          (cancel_payload own) (others s.db) after.db (withdrawn own now j) w swapped in
      record {
        job = withdrawn own now j;
        changed = withdrawn-CancelledFrom own now j;
        returned = refl;
        read = read.4;
        event = record {
          id = suc (others s.db).last_event;
          job_id = (withdrawn own now j).id;
          event_type = "job_cancelled";
          payload = cancel_payload own;
          created_at = (withdrawn own now j).updated_at;
        };
        recorded = refl;
        about = ((withdrawn-CancelledFrom own now j).named.0, refl, refl);
        inbox = refl;
      }

-- A job that is over is left alone.
cancel_round_over :
    (own : String) (now : ℕ) (others : Db → Db) (s : Shared) (j : Job)
    → get_job j.id own s.db ≡ (ok j, s.db)
    → is_terminal j.state ≡ true
    → cancel_round own now others j.id s ≡ (ok (some j), s)
unfolding cancel_round cancel_unless pure job_of on_store
cancel_round_over own now others s j g over =
    bind-ok (job_of own j.id) (λ job. cancel_unless own now others job (is_terminal job.state)) s j
      s (rw (g, job_of) refl)
    ∙ left_alone (is_terminal j.state) over
  where
    left_alone : (b : Bool) → b ≡ true → cancel_unless own now others j b s ≡ (ok (some j), s)
    left_alone true e = refl
    left_alone false e = cc e

Over-state : (state : JobState) → is_terminal state ≡ true → Over state
Over-state succeeded h = inl refl
Over-state failed h = inr (inl refl)
Over-state intervention_required h = inr (inr (inl refl))
Over-state cancelled h = inr (inr (inr refl))
Over-state _ h = cc h

-- The rounds that follow one that has settled make no difference.
cancel_job-settled :
    (own : String) (now : ℕ) (others : Db → Db) (rounds : List (ℕ × (Db → Db))) (job_id : String)
    (s t : Shared) (u : Job)
    → cancel_round own now others job_id s ≡ (ok (some u), t)
    → cancel_job own ((now, others) ∷ rounds) job_id own s ≡ (ok (some u), t)
unfolding cancel_job cancel_rounds require_owner ◌>>=◌ lift pure
cancel_job-settled own now others rounds job_id s t u h = rw (beq-true own own refl, h) refl

-- On well-formed tables, when the other threads do not change the job between the read and the
-- compare-and-set of the first round and the clock is not behind the job's creation, the owner's
-- cancellation of a stored job that does not wait for a challenge ends in that round. A job that is
-- over is returned as it is and nothing changes; any other one is returned as cancelled, with no
-- current service, the owner's reason as its error, the version one higher, the clock's time and its
-- other fields kept; readers get it so, one event about it is recorded, and the inbox stays.
pub cancel_job-Withdrawn :
    (own : String) (now : ℕ) (others : Db → Db) (rounds : List (ℕ × (Db → Db))) (s : Shared)
    (j : Job)
    → WellFormed (others s.db)
    → get_job j.id own s.db ≡ (ok j, s.db)
    → get_job j.id own (others s.db) ≡ (ok j, others s.db)
    → j.state ≢ waiting_for_challenge
    → j.created_at ≤ now
    → (Over j.state × (cancel_job own ((now, others) ∷ rounds) j.id own s ≡ (ok (some j), s)))
      ⊎ (((j.state ≡ queued) ⊎ (j.state ≡ running))
          × Withdrawn own now
              (others s.db)
              s
              j
              (cancel_job own ((now, others) ∷ rounds) j.id own s))
cancel_job-Withdrawn own now others rounds s j w g g' free le =
    elim (Bool-cases (is_terminal j.state)) [
      | inl over ↦ inl (
        Over-state j.state over,
        cancel_job-settled own now others rounds j.id s s j
            (cancel_round_over own now others s j g over),
      )
      | inr active ↦
          let v = withdrawn-IsValid own now j (get_job-IsValid j.id own (others s.db) j w g') le in
          let settled =
            cancel_job-settled own now others rounds j.id s (after own now others s j w g g' v)
              (withdrawn own now j)
              (cancel_round_done own now others s j w g g' v active (not_waiting j.state free)) in
          inr (
            open_state j.state active free,
            subst (Withdrawn own now (others s.db) s j) (sym settled)
                (after-Withdrawn own now others s j w g g' v),
          )
    ]
  where
    not_waiting :
        (state : JobState)
        → state ≢ waiting_for_challenge
        → (state == waiting_for_challenge) ≡ false
    not_waiting waiting_for_challenge n = absurd (n refl)
    not_waiting _ n = refl

    open_state :
        (state : JobState)
        → is_terminal state ≡ false
        → state ≢ waiting_for_challenge
        → (state ≡ queued) ⊎ (state ≡ running)
    open_state queued h n = inl refl
    open_state running h n = inr refl
    open_state waiting_for_challenge h n = absurd (n refl)
    open_state _ h n = cc h
