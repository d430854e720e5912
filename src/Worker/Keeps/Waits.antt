-- ===== src/Worker/Keeps/Waits.antt =====
-- The waits for the owner leave true what the other threads and mild transitions leave true.
use get_receipt.Base.{
  arith, ℕ, zero, suc, String, not, ◌||◌, Option, none, some, refl, ◌==◌, string_eq, ltb,
}
use get_receipt.Base.Exec.Keeps.{
  Keeps, Keeps-pure, Keeps-lift, Keeps-cond, Keeps-bind, Keeps-option,
}
use get_receipt.Jobs.Model.{Job, state_eq, cancelled}
use get_receipt.Jobs.Challenge.{Challenge}
use get_receipt.Jobs.Store.Rows.{Db}
use get_receipt.Jobs.Store.Challenges.{add_challenge}
use get_receipt.Jobs.Inbox.{Method, Round, waiting, returned}
use get_receipt.Acquisition.Report.{AcquisitionResult}
use get_receipt.Worker.State.{Office, Settings, Work, let_others}
use get_receipt.Worker.Waits.{
  on_inbox, after_pass, new_challenge, wait_pass, await_response, code_missing, code_received,
  wait_for_code, expiry,
}
use get_receipt.Worker.Interactive.{
  check_viewer, open_viewer, close_viewer, is_continued, interactive_expired, interactive_done,
  await_owner, wait_for_interactive,
}
use get_receipt.Worker.Keeps.{
  On, Allowed, gentle, on_store-Keeps, clock-Keeps, reading-Keeps, uuid-Keeps, is_stopped-Keeps,
  read_job-Keeps, swap-Keeps, set_intervention-Keeps,
}

module _ {O : Type 0} (office : Office O) (settings : Settings) (P : Db → Type 0)
    (allowed : Allowed office settings.owner_id P) where
  on_inbox-Keeps : {A : Type 0} (m : Method A) → Keeps (On P) (on_inbox office settings m)
  unfolding on_inbox let_others
  on_inbox-Keeps m = record { at = λ s p. allowed.others s.outer s.common p }

  new_challenge-Keeps :
      (job : Job) (service_id kind message : String)
      → Keeps (On P) (new_challenge office settings job service_id kind message)
  unfolding new_challenge
  new_challenge-Keeps job service_id kind message =
      Keeps-bind _ _ (clock-Keeps office settings P allowed) λ now.
        Keeps-bind _ _ (uuid-Keeps office settings P allowed)
          λ id. Keeps-bind _ _ (clock-Keeps office settings P allowed) λ created. Keeps-lift _

  wait_pass-Keeps : (deadline i : ℕ) → Keeps (On P) (wait_pass office settings deadline i)
  unfolding wait_pass let_others
  wait_pass-Keeps deadline i = Keeps-bind _ _ (reading-Keeps office settings P allowed) λ now.
      Keeps-bind _ _ (reading-Keeps office settings P allowed)
        λ later. record { at = λ s p. allowed.others s.outer s.common p }

  after_pass-Keeps :
      (again : Option (ℕ × ℕ) → Work O (Option String)) (challenge_id : String) (inside : ℕ × ℕ)
      (round : Round)
      → ((i : Option (ℕ × ℕ)) → Keeps (On P) (again i))
      → Keeps (On P) (after_pass office settings again challenge_id inside round)
  unfolding after_pass
  after_pass-Keeps again challenge_id inside waiting h = h (some inside)
  after_pass-Keeps again challenge_id inside (returned none) h = h none
  after_pass-Keeps again challenge_id inside (returned (some r)) h =
      Keeps-bind _ _ (on_inbox-Keeps _) λ u. Keeps-pure _

  await_response-Keeps :
      (rounds : ℕ) (challenge_id : String) (inside : Option (ℕ × ℕ))
      → Keeps (On P) (await_response office settings rounds challenge_id inside)
  unfolding await_response
  await_response-Keeps zero challenge_id inside = Keeps-lift _
  await_response-Keeps (suc rounds) challenge_id (some (deadline, i)) =
      Keeps-bind _ _ (wait_pass-Keeps deadline i) λ round.
        after_pass-Keeps (await_response office settings rounds challenge_id) challenge_id
          (deadline, i) round (await_response-Keeps rounds challenge_id)
  await_response-Keeps (suc rounds) challenge_id none =
      Keeps-bind _ _ (is_stopped-Keeps office settings P allowed) λ stopped.
        Keeps-cond stopped (Keeps-pure _) (
          Keeps-bind _ _ (reading-Keeps office settings P allowed) λ now.
            Keeps-bind _ _ (on_inbox-Keeps _) λ pending.
              Keeps-cond pending
                (Keeps-bind _ _ (on_inbox-Keeps _) λ i.
                  Keeps-bind _ _ (reading-Keeps office settings P allowed) λ start.
                    Keeps-bind _ _ (on_inbox-Keeps _)
                      λ e. await_response-Keeps rounds challenge_id _)
                (Keeps-pure _))

  code_missing-Keeps :
      (job_id challenge_id : String)
      → Keeps (On P) (code_missing office settings job_id challenge_id)
  unfolding code_missing
  code_missing-Keeps job_id challenge_id = Keeps-bind _ _ (on_inbox-Keeps _) λ d.
      Keeps-bind _ _ (is_stopped-Keeps office settings P allowed) λ stopped.
        Keeps-cond stopped (Keeps-pure _) (
          Keeps-bind _ _ (read_job-Keeps office settings P allowed job_id) λ latest.
            Keeps-cond (latest.state == cancelled) (Keeps-pure _) (
              Keeps-bind _ _ (swap-Keeps office settings P allowed _ _ _ _ (gentle refl refl refl))
                λ u. Keeps-pure _))

  code_received-Keeps :
      (job_id service_id challenge_id response : String)
      → Keeps (On P) (code_received office settings job_id service_id challenge_id response)
  unfolding code_received
  code_received-Keeps job_id service_id challenge_id response =
      Keeps-bind _ _ (read_job-Keeps office settings P allowed job_id) λ latest.
        Keeps-bind _ _ (swap-Keeps office settings P allowed _ _ _ _ (gentle refl refl refl))
          λ u. Keeps-pure _

  pub wait_for_code-Keeps :
      (rounds : ℕ) (job_id service_id : String) (result : AcquisitionResult)
      → Keeps (On P) (wait_for_code office settings rounds job_id service_id result)
  unfolding wait_for_code
  wait_for_code-Keeps rounds job_id service_id result =
      Keeps-bind _ _ (read_job-Keeps office settings P allowed job_id) λ current.
        Keeps-bind _ _ (new_challenge-Keeps _ _ _ _) λ challenge.
          Keeps-bind _ _
            (on_store-Keeps office settings P allowed (add_challenge challenge settings.owner_id)
              (λ db p. allowed.posed challenge db p))
            λ c. Keeps-bind _ _ (reading-Keeps office settings P allowed) λ now.
              Keeps-bind _ _ (on_inbox-Keeps _) λ u.
                Keeps-bind _ _
                  (swap-Keeps office settings P allowed _ _ _ _ (gentle refl refl refl))
                  λ held. Keeps-bind _ _ (await_response-Keeps rounds challenge.id none) λ response.
                    Keeps-option response (code_missing-Keeps _ _)
                      (λ value. code_received-Keeps _ _ _ value)

  check_viewer-Keeps :
      (service_id : String) → Keeps (On P) (check_viewer office settings service_id)
  unfolding check_viewer
  check_viewer-Keeps service_id = record { at = λ s p. ground (arith, p) }

  open_viewer-Keeps : (id : String) → Keeps (On P) (open_viewer office settings id)
  unfolding open_viewer let_others
  open_viewer-Keeps id = record { at = λ s p. allowed.others s.outer s.common p }

  close_viewer-Keeps : Keeps (On P) (close_viewer office settings)
  unfolding close_viewer let_others
  close_viewer-Keeps = record { at = λ s p. allowed.others s.outer s.common p }

  is_continued-Keeps : Keeps (On P) (is_continued office settings)
  unfolding is_continued let_others
  is_continued-Keeps = record { at = λ s p. allowed.others s.outer s.common p }

  interactive_expired-Keeps :
      (job_id challenge_id : String)
      → Keeps (On P) (interactive_expired office settings job_id challenge_id)
  unfolding interactive_expired
  interactive_expired-Keeps job_id challenge_id =
      Keeps-bind _ _ (read_job-Keeps office settings P allowed job_id) λ latest.
        Keeps-bind _ _ (is_stopped-Keeps office settings P allowed) λ stopped.
          Keeps-cond (stopped || latest.state == cancelled) (Keeps-pure _) (
            Keeps-bind _ _ (swap-Keeps office settings P allowed _ _ _ _ (gentle refl refl refl))
              λ u. Keeps-pure _)

  interactive_done-Keeps :
      (job_id service_id challenge_id : String)
      → Keeps (On P) (interactive_done office settings job_id service_id challenge_id)
  unfolding interactive_done
  interactive_done-Keeps job_id service_id challenge_id =
      Keeps-bind _ _ (read_job-Keeps office settings P allowed job_id) λ latest.
        Keeps-cond (latest.state == cancelled) (Keeps-pure _) (
          Keeps-bind _ _ (swap-Keeps office settings P allowed _ _ _ _ (gentle refl refl refl))
            λ u. Keeps-bind _ _ close_viewer-Keeps λ v. Keeps-pure _)

  await_owner-Keeps :
      (rounds : ℕ) (job_id service_id : String) (challenge : Challenge)
      → Keeps (On P) (await_owner office settings rounds job_id service_id challenge)
  unfolding await_owner
  await_owner-Keeps zero job_id service_id challenge = Keeps-lift _
  await_owner-Keeps (suc rounds) job_id service_id challenge =
      Keeps-bind _ _ (is_stopped-Keeps office settings P allowed) λ stopped.
        Keeps-bind _ _ (clock-Keeps office settings P allowed) λ now.
          Keeps-cond (stopped || not (ltb now (expiry challenge.expires_at)))
            (interactive_expired-Keeps job_id challenge.id)
            (Keeps-bind _ _ is_continued-Keeps λ continued.
              Keeps-cond continued (interactive_done-Keeps job_id service_id challenge.id) (
                Keeps-bind _ _ (read_job-Keeps office settings P allowed job_id) λ latest.
                  Keeps-cond (latest.state == cancelled) (Keeps-pure _)
                    (await_owner-Keeps rounds job_id service_id challenge)))

  pub wait_for_interactive-Keeps :
      (rounds : ℕ) (job_id service_id kind : String) (result : AcquisitionResult)
      → Keeps (On P) (wait_for_interactive office settings rounds job_id service_id kind result)
  unfolding wait_for_interactive
  wait_for_interactive-Keeps rounds job_id service_id kind result =
      Keeps-bind _ _ (read_job-Keeps office settings P allowed job_id) λ current.
        Keeps-bind _ _ (new_challenge-Keeps _ _ _ _) λ challenge.
          Keeps-bind _ _ (check_viewer-Keeps service_id) λ viewer_error.
            Keeps-option viewer_error
              (Keeps-bind _ _
                (on_store-Keeps office settings P allowed
                  (add_challenge challenge settings.owner_id)
                  (λ db p. allowed.posed challenge db p))
                λ c. Keeps-bind _ _ (open_viewer-Keeps _) λ u.
                  Keeps-bind _ _
                    (swap-Keeps office settings P allowed _ _ _ _ (gentle refl refl refl))
                    λ held. await_owner-Keeps rounds held.id service_id challenge)
              (λ code.
                Keeps-bind _ _ (set_intervention-Keeps office settings P allowed _ _ _)
                  λ u. Keeps-pure _)
