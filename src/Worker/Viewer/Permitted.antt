-- ===== src/Worker/Viewer/Permitted.antt =====
-- The owner reaches the browser through the page of the challenge only.
use get_receipt.Base.{
  String, true, Option, none, some, Result, ok, err, ◌≡◌, refl, ◌⊎◌, inl, inr, ap, string_eq, arith,
  Bool-cases, Result-cases, eq_iff,
}
use get_receipt.Base.Exec.{◌>>=◌}
use get_receipt.Base.Integers.{ℤ}
use get_receipt.Worker.State.{Office, Worker, Target}
use get_receipt.Worker.Waits.{is_official}
use get_receipt.Worker.Viewer.{
  Hands, ViewerFault, View, unavailable, browser_raised, is_viewed, is_same_page, is_active,
  require_active_browser, send_viewer_input, capture_viewer_frame, continue_interactive,
}

-- The browser is that of the job, the challenge is under way, and its page is the one that it began
-- with, on an official host of the service.
pub record Permitted {O : Type 0} (office : Office O) (job_id challenge_id : String) (s : Worker O)
    : Type 0 where
  pub target : Target
  pub page : (office.page_target s.outer).0 ≡ ok target
  pub active : s.browser_job_id ≡ some job_id
  pub challenge : s.interactive_challenge_id ≡ challenge_id
  pub same : target.target_id ≡ s.interactive_target_id
  pub official : is_official s.interactive_service_id target ≡ true

-- A call that was refused has at most asked for the page's address.
pub record Refused {O A : Type 0} (office : Office O) (s : Worker O)
    (a : Result ViewerFault A × Worker O) : Type 0 where
  pub fault : ViewerFault
  pub raised : a.0 ≡ err fault
  pub left : (a.1 ≡ s) ⊎ (a.1 ≡ record s { outer = (office.page_target s.outer).1 })

module _ {O : Type 0} (office : Office O) (hands : Hands O) (job_id challenge_id : String) where
  active_job : (active : Option String) → is_active active job_id ≡ true → active ≡ some job_id
  active_job none h = ground (arith, h)
  active_job (some a) h = ap some ((eq_iff a job_id).0 (ground (arith, h)))

  permitted :
      (s : Worker O) (target : Target)
      → (office.page_target s.outer).0 ≡ ok target
      → is_viewed job_id challenge_id s ≡ true
      → is_same_page target s ≡ true
      → Permitted office job_id challenge_id s
  permitted s target page viewed same = record {
    target = target;
    page = page;
    active = active_job s.browser_job_id (ground (arith, viewed));
    challenge = (eq_iff s.interactive_challenge_id challenge_id).0 (ground (arith, viewed));
    same = (eq_iff target.target_id s.interactive_target_id).0 (ground (arith, same));
    official = ground (arith, same);
  }

  require_active_browser-Permitted :
      (s : Worker O)
      → Permitted office job_id challenge_id s
        ⊎ Refused office s (require_active_browser office hands job_id challenge_id s)
  unfolding require_active_browser
  require_active_browser-Permitted s = elim (Bool-cases (is_viewed job_id challenge_id s)) [
    | inr e ↦ inr (rw e (record { fault = unavailable; raised = refl; left = inl refl }))
    | inl e ↦ elim (Result-cases (office.page_target s.outer).0) [
      | inr (x, f) ↦
          inr (rw (e, f) (record { fault = browser_raised; raised = refl; left = inr refl }))
      | inl (target, f) ↦ elim (Bool-cases (is_same_page target s)) [
        | inl g ↦ inl (permitted s target f e g)
        | inr g ↦
            inr (rw (e, f, g) (record { fault = unavailable; raised = refl; left = inr refl }))
      ]
    ]
  ]

  passed_on :
      {A : Type 0} (m : Unit {0} → View O A) (s : Worker O)
      → Refused office s (require_active_browser office hands job_id challenge_id s)
      → Refused office s ((require_active_browser office hands job_id challenge_id >>= m) s)
  unfolding ◌>>=◌
  passed_on m s r = rw (r.raised) (record { fault = r.fault; raised = refl; left = r.left })

  -- The owner's calls on the browser are permitted, or each of them is refused, whatever its arguments
  -- are, and calls no method of the browser but the one for the page's address.
  pub viewer_calls-Permitted :
      (action : String) (x y : Option ℤ) (text key : String) (s : Worker O)
      → Permitted office job_id challenge_id s
        ⊎ (Refused office s
              (send_viewer_input office hands job_id challenge_id action x y text key s)
            × Refused office s (capture_viewer_frame office hands job_id challenge_id s)
            × Refused office s (continue_interactive office hands job_id challenge_id s))
  unfolding send_viewer_input capture_viewer_frame continue_interactive
  viewer_calls-Permitted action x y text key s = elim (require_active_browser-Permitted s) [
    | inl p ↦ inl p
    | inr r ↦ inr (passed_on _ s r, passed_on _ s r, passed_on _ s r)
  ]
