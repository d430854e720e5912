-- ===== src/Service/Tests.antt =====
-- The service's theorems at a concrete input.
use get_receipt.Base.{◌⊎◌, arith, some, [], ◌∷◌, ok, ◌≡◌}
use get_receipt.Jobs.Inbox.{empty_inbox}
use get_receipt.Jobs.Tests.{fresh, one, one-WellFormed, get_job-one}
use get_receipt.Service.{Shared}
use get_receipt.Service.Challenges.{cancel_job}
use get_receipt.Service.Cancelled.{cancel_job-Withdrawn, Withdrawn, Over}
use get_receipt.Jobs.Model.{queued, running}

abbrev shared : Shared
shared = record { db = one; inbox = empty_inbox }

cancel_job-Withdrawn_example :
    (Over queued
      × (cancel_job "me" ((200, λ d. d) ∷ []) "j1" "me" shared ≡ (ok (some fresh), shared)))
    ⊎ (((queued ≡ queued) ⊎ (queued ≡ running))
        × Withdrawn "me" 200 one shared fresh
            (cancel_job "me" ((200, λ d. d) ∷ []) "j1" "me" shared))
cancel_job-Withdrawn_example =
    cancel_job-Withdrawn "me" 200 (λ d. d) [] shared fresh one-WellFormed get_job-one get_job-one
      (λ e. cc e) (omega arith)
