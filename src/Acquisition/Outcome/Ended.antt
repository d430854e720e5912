-- ===== src/Acquisition/Outcome/Ended.antt =====
-- What a whole attempt of cloud/src/workflows/auto_acquisition.py comes to.
use get_receipt.Base.Integers.{pos}
use get_receipt.Base.{
  subst, String, some, false, [], Result, ok, err, ◌≡◌, refl, inl, inr, Option-cases,
}
use get_receipt.Base.Exec.Reports.{Reports, OutcomeOf}
use get_receipt.Config.{ServiceDefinition}
use get_receipt.Acquisition.Report.{AcquisitionResult, has_saving}
use get_receipt.Acquisition.Ports.{Ports}
use get_receipt.Acquisition.Run.{Attempt}
use get_receipt.Acquisition.Workflow.{attempt, checked_service}
use get_receipt.Acquisition.Outcome.{Good, Unaffected}
use get_receipt.Acquisition.Outcome.Stages.{Ends, fail_with-Reports}
use get_receipt.Acquisition.Outcome.Whole.{acquire-Reports}

abbrev pub begin : {W : Type 0} → W → Attempt W
begin world = record { world = world; events = [] }

-- An outcome that cannot be a value is a result.
result_of :
    {S E A : Type 0} (R : E → S → Type 0) (o : Result E A × S)
    → OutcomeOf (λ a t. ⊥) R o
    → (r : E) × (t : S) × (o ≡ (err r, t)) × R r t
result_of R (ok a, t) h = elim h [ ]
result_of R (err e, t) h = (e, t, refl, h)

-- Of a request for a known service and month, the attempt ends in a result, and the result is good:
-- a receipt that it reports is in a listing of Drive, after an upload of a PDF that raised nothing
-- if it reports one as acquired; a challenge is of a kind that the owner can act on; a failure has
-- its code and no receipt; and the last event says the same as the outcome.
pub attempt-Good :
    {W : Type 0} (ports : Ports W) (service : ServiceDefinition) (service_id target_month : String)
    (world : W)
    → checked_service service_id target_month ≡ some service
    → (r : AcquisitionResult) × (a : Attempt W) × (attempt ports service_id target_month
          (begin world)
        ≡ (err r, a))
      × Good ports service target_month r.outcome r
unfolding attempt
attempt-Good ports service service_id target_month world e =
    let unaffected : Unaffected ports (λ w. Unit {0}) = record {
      notified = λ x w p. tt;
      listed = λ w p. tt;
      fetched = λ m w p. tt;
      asked = λ ask w x p. tt;
    } in
    let (r, a, run, ends) =
      result_of (Ends ports service target_month service_id (λ w. Unit) unaffected) _
        (acquire-Reports ports service target_month service_id (λ w. Unit) unaffected (begin world)
          (inl tt)).at in
    rw (e, attempt) (r, a, run, ends.0)

abbrev any_service : ServiceDefinition
any_service = record {
  id = "";
  label = "";
  default_partner = "";
  portal_url = "";
  partner_aliases = [];
  transaction_month_offset = pos 0;
}

-- An attempt that did not announce an upload made none: what every other call of the outside world
-- and every notice of progress leave true is true after it.
pub attempt_unsaved :
    {W : Type 0} (ports : Ports W) (service_id target_month : String) (P : W → Type 0) (world : W)
    (r : AcquisitionResult) (a : Attempt W)
    → Unaffected ports P
    → P world
    → attempt ports service_id target_month (begin world) ≡ (err r, a)
    → has_saving r.events ≡ false
    → P a.world
unfolding attempt
attempt_unsaved ports service_id target_month P world r a keep p run unsaved =
    elim (Option-cases (checked_service service_id target_month)) [
      | inl e ↦ finish any_service (
          rw (e, attempt)
            (fail_with-Reports ports any_service target_month service_id P keep _ _ _ _
              (begin world) (inl p)))
      | inr (service, e) ↦ finish service (
          rw (e, attempt)
            (acquire-Reports ports service target_month service_id P keep (begin world) (inl p)))
    ]
  where
    finish :
        (service : ServiceDefinition)
        → Reports
            (attempt ports service_id target_month)
            (begin world)
            (λ u t. ⊥)
            (Ends ports service target_month service_id P keep)
        → P a.world
    finish service h =
        elim (subst (OutcomeOf (λ u t. ⊥) (Ends ports service target_month service_id P keep)) run
          h.at).1 [ inl q ↦ q | inr k ↦ cc ]
