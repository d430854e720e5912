-- ===== src/Acquisition/Outcome.antt =====
-- Every attempt ends in a result, and what the result says of Drive.
pub mod Stages
pub mod Whole
pub mod Ended
use get_receipt.Base.{
  ℕ, String, Bool, true, false, ◌||◌, Option, none, some, List, [], ◌∷◌, ◌++◌, Result, ok, err, ◌≡◌,
  refl, ◌⊎◌, inl, inr, last?, any, contains, string_eq, ap, ◌∙◌,
}
use get_receipt.Base.Exec.{pure, lift, gets, modify, ◌>>=◌, ◌>>◌}
use get_receipt.Base.Exec.Reports.{Reports, Reports-bind, Reports-pure}
use get_receipt.Config.{ServiceDefinition}
use get_receipt.Acquisition.Report.{
  Stage, saving, verifying, completed, failed, AcquisitionOutcome, acquired, already_exists,
  action_required, unsuccessful, ProgressEvent, AcquisitionResult, AcquisitionFailure,
  SecurityChallenge, stage_of, message_of, has_saving, is_saving,
}
use get_receipt.Acquisition.Ports.{
  Ports, Call, Item, Raised, stored_receipt_reference, has_pdf_mark,
}
use get_receipt.Acquisition.Run.{
  Attempt, Run, call, emit, fail_with, complete, notify, awaiting, action_required_challenge_kinds,
}

pub last?-append {ℓ} : {A : Type ℓ} (xs : List A) (x : A) → last? (xs ++ x ∷ []) ≡ some x
last?-append [] x = refl
last?-append (y ∷ []) x = refl
last?-append (y ∷ z ∷ xs) x = last?-append (z ∷ xs) x

pub has_saving-append :
    (xs ys : List ProgressEvent) → has_saving (xs ++ ys) ≡ (has_saving xs || has_saving ys)
has_saving-append [] ys = refl
has_saving-append (x ∷ xs) ys =
    rw (has_saving-append xs ys) (cases-or (is_saving x.stage) (has_saving xs) (has_saving ys))
  where
    cases-or : (b c d : Bool) → (b || (c || d)) ≡ ((b || c) || d)
    cases-or true c d = refl
    cases-or false c d = refl

pub has_saving-saving :
    (events : List ProgressEvent) (message : String)
    → has_saving (events ++ record { stage = saving; message = message } ∷ []) ≡ true
has_saving-saving [] message = refl
has_saving-saving (e ∷ es) message =
    rw (has_saving-saving es message) (any-true (is_saving e.stage))
  where
    any-true : (b : Bool) → (b || true) ≡ true
    any-true true = refl
    any-true false = refl

module _ {W : Type 0} (ports : Ports W) (service : ServiceDefinition) (target_month : String) where
  -- A listing of Drive, made in the world `w`, has the receipt of the result.
  pub record Listed (w : W) (r : AcquisitionResult) : Type 0 where
    pub files : List Item
    pub item : Item
    pub listed : (ports.list_files w).0 ≡ ok files
    pub found : ports.receipt_finder files service target_month ≡ ok (some item)
    pub reference : r.receipt ≡ some (stored_receipt_reference item)

  -- A PDF was uploaded without an error, and the listing that has the receipt comes after that.
  pub record Uploaded (r : AcquisitionResult) : Type 0 where
    pub content : List ℕ
    pub file_name : String
    pub before : W
    pub message : String
    pub is_pdf : has_pdf_mark 1024 content ≡ true
    pub uploaded : (ports.upsert_bytes file_name content before).0 ≡ ok tt
    pub listed :
        Listed
          (notify ports.on_progress
            (record { stage = verifying; message = message })
            (ports.upsert_bytes file_name content before).1)
          r

  -- What a result of each outcome says.
  abbrev pub Good : AcquisitionOutcome → AcquisitionResult → Type 0
  Good acquired r =
      Uploaded r × (r.failure ≡ none) × (r.challenge ≡ none) × (stage_of r ≡ completed)
  Good already_exists r =
      ((w : W) × Listed w r) × (r.failure ≡ none) × (r.challenge ≡ none) × (stage_of r ≡ completed)
  Good action_required r =
      (c : SecurityChallenge) × (r.challenge ≡ some c)
      × (contains action_required_challenge_kinds c.kind ≡ true)
      × (r.receipt ≡ none)
      × (r.failure ≡ none)
      × (stage_of r ≡ awaiting c.kind)
      × (message_of r ≡ c.message)
  Good unsuccessful r =
      (f : AcquisitionFailure) × (r.failure ≡ some f)
      × (r.receipt ≡ none)
      × (r.challenge ≡ none)
      × (stage_of r ≡ failed)
      × (message_of r ≡ f.message)

-- No call of an attempt but the upload, and no notice of its progress, takes the world out of `P`.
pub record Unaffected {W : Type 0} (ports : Ports W) (P : W → Type 0) : Type 0 where
  pub notified : (e : ProgressEvent) (w : W) → P w → P (notify ports.on_progress e w)
  pub listed : (w : W) → P w → P (ports.list_files w).1
  pub fetched : (month : String) (w : W) → P w → P (ports.fetch_statement month w).1
  pub asked :
      (ask : Call W Bool) (w : W) → ports.cancellation_requested ≡ some ask → P w → P (ask w).1
