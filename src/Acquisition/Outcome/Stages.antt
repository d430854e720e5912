-- ===== src/Acquisition/Outcome/Stages.antt =====
-- Each stage of an attempt goes on with the world as it should be, or has a good result.
use get_receipt.Base.{
  String, Bool, true, Option, none, some, List, [], ◌∷◌, ◌++◌, Result, ok, err, ◌≡◌, refl, ◌⊎◌, inl,
  inr, string_eq, Bool-cases,
}
use get_receipt.Base.Exec.{pure, lift, gets, modify, ◌>>=◌}
use get_receipt.Base.Exec.Reports.{Reports, Reports-pure}
use get_receipt.Config.{ServiceDefinition}
use get_receipt.Acquisition.Report.{
  Stage, completed, failed, AcquisitionOutcome, ProgressEvent, AcquisitionResult, stage_of,
  has_saving,
}
use get_receipt.Acquisition.Ports.{Ports, Call, Item, Raised, stored_receipt_reference}
use get_receipt.Acquisition.Run.{
  Attempt, Run, call, emit, fail_with, complete, notify, check_cancelled, find_stored, is_requested,
  search, check_with,
}
use get_receipt.Acquisition.Outcome.{last?-append, has_saving-append, Listed, Good, Unaffected}

abbrev pub emitted : {W : Type 0} → Ports W → Stage → String → Attempt W → Attempt W
emitted ports stage message a =
    let event : ProgressEvent = record { stage = stage; message = message } in
    record { world = notify ports.on_progress event a.world; events = a.events ++ event ∷ [] }

module _ {W : Type 0} (ports : Ports W) (service : ServiceDefinition) (target_month : String)
    (service_id : String) (P : W → Type 0) (keep : Unaffected ports P) where
  -- The world is as it was as far as `P` says, unless the attempt has announced an upload.
  abbrev pub Safe : Attempt W → Type 0
  Safe a = P a.world ⊎ (has_saving a.events ≡ true)

  abbrev pub Ends : AcquisitionResult → Attempt W → Type 0
  Ends r a =
      Good ports service target_month r.outcome r × (P a.world ⊎ (has_saving r.events ≡ true))

  pub has_saving-emitted :
      (stage : Stage) (message : String) (a : Attempt W)
      → has_saving a.events ≡ true
      → has_saving (emitted ports stage message a).events ≡ true
  has_saving-emitted stage message a h =
      rw (has_saving-append a.events (record { stage = stage; message = message } ∷ []), h) refl

  pub Safe-emitted :
      (stage : Stage) (message : String) (a : Attempt W)
      → Safe a
      → Safe (emitted ports stage message a)
  Safe-emitted stage message a (inl p) =
      inl (keep.notified (record { stage = stage; message = message }) a.world p)
  Safe-emitted stage message a (inr h) = inr (has_saving-emitted stage message a h)

  pub Safe-called :
      {B : Type 0} (c : Call W B) (a : Attempt W)
      → (P a.world → P (c a.world).1)
      → Safe a
      → Safe (record a { world = (c a.world).1 })
  Safe-called c a kept (inl p) = inl (kept p)
  Safe-called c a kept (inr h) = inr h

  module _ {A : Type 0} {Q : A → Attempt W → Type 0} where
    pub fail_with-Reports :
        (code message : String) (stage : Stage) (detail : String) (a : Attempt W)
        → Safe a
        → Reports (fail_with ports service_id target_month code message stage detail) a Q Ends
    unfolding fail_with emit modify gets lift ◌>>=◌
    fail_with-Reports code message stage detail a s =
        let e : ProgressEvent = record { stage = failed; message = message } in
        record {
          at = (
            (
              record { code = code; message = message; stage = stage; detail = detail },
              refl,
              refl,
              refl,
              rw (last?-append a.events e) refl,
              rw (last?-append a.events e) refl,
            ),
            Safe-emitted failed message a s,
          );
        }

    pub complete-Reports :
        (outcome : AcquisitionOutcome) (message : String) (item : Item) (a : Attempt W)
        → Safe a
        → ((r : AcquisitionResult)
            → r.receipt ≡ some (stored_receipt_reference item)
            → r.failure ≡ none
            → r.challenge ≡ none
            → stage_of r ≡ completed
            → Good ports service target_month outcome r)
        → Reports (complete ports service_id target_month outcome message item) a Q Ends
    unfolding complete emit modify gets lift ◌>>=◌
    complete-Reports outcome message item a s good =
        let e : ProgressEvent = record { stage = completed; message = message } in
        record {
          at = (
            good _ refl refl refl (rw (last?-append a.events e) refl),
            Safe-emitted completed message a s,
          );
        }

  module _ {A : Type 0} {Q : A → Attempt W → Type 0} where
    pub emit-bind :
        (stage : Stage) (message : String) (f : Unit {0} → Run W A) (a : Attempt W)
        → Reports (f tt) (emitted ports stage message a) Q Ends
        → Reports (emit ports service_id target_month stage message >>= f) a Q Ends
    unfolding emit modify ◌>>=◌
    emit-bind stage message f a h = record { at = h.at }

    pub call-bind :
        {B : Type 0} (c : Call W B) (f : Result Raised B → Run W A) (a : Attempt W)
        → Reports (f (c a.world).0) (record a { world = (c a.world).1 }) Q Ends
        → Reports (call c >>= f) a Q Ends
    unfolding call ◌>>=◌
    call-bind c f a h = record { at = h.at }

    -- What a search of Drive gives: an error, nothing, or an item of the listing.
    pub find_stored-bind :
        (f : Result Raised (Option Item) → Run W A) (a : Attempt W)
        → (let t = record a { world = (ports.list_files a.world).1 } in
            ((e : Raised) → Reports (f (err e)) t Q Ends)
            × Reports (f (ok none)) t Q Ends
            × ((item : Item)
                → ((r : AcquisitionResult)
                    → r.receipt ≡ some (stored_receipt_reference item)
                    → Listed ports service target_month a.world r)
                → Reports (f (ok (some item))) t Q Ends))
        → Reports (find_stored ports service_id target_month service >>= f) a Q Ends
    unfolding find_stored call pure ◌>>=◌
    find_stored-bind f a (failing, missing, finding) = record {
      at = (on_listing (ports.list_files a.world).0 refl).at;
    }
      where
        t : Attempt W
        t = record a { world = (ports.list_files a.world).1 }

        on_search :
            (files : List Item)
            → (ports.list_files a.world).0 ≡ ok files
            → (r : Result Raised (Option Item))
            → ports.receipt_finder files service target_month ≡ r
            → Reports (f r) t Q Ends
        on_search files h (err e) k = failing e
        on_search files h (ok none) k = missing
        on_search files h (ok (some item)) k =
            finding item
              (λ r e. record { files = files; item = item; listed = h; found = k; reference = e })

        on_listing :
            (l : Result Raised (List Item))
            → (ports.list_files a.world).0 ≡ l
            → Reports (f (search ports service_id target_month service l)) t Q Ends
        on_listing (err e) h = failing e
        on_listing (ok files) h = on_search files h _ refl

  check_with-Reports :
      (cancellation_requested : Option (Call W Bool)) (stage : Stage) (a : Attempt W)
      → ((ask : Call W Bool) → cancellation_requested ≡ some ask → P a.world → P (ask a.world).1)
      → Safe a
      → Reports
          (check_with ports service_id target_month cancellation_requested stage)
          a
          (λ u t. Safe t)
          Ends
  unfolding check_with
  check_with-Reports none stage a kept s = Reports-pure tt a s
  check_with-Reports (some ask) stage a kept s =
      let t = Safe-called ask a (kept ask refl) s in
      call-bind ask _ a (elim (Bool-cases (is_requested (ask a.world).0)) [
        | inl e ↦ rw e (fail_with-Reports _ _ _ _ _ t)
        | inr e ↦ rw e (Reports-pure tt _ t)
      ])

  pub check_cancelled-Reports :
      (stage : Stage) (a : Attempt W)
      → Safe a
      → Reports (check_cancelled ports service_id target_month stage) a (λ u t. Safe t) Ends
  check_cancelled-Reports stage a s =
      check_with-Reports ports.cancellation_requested stage a
        (λ ask e p. keep.asked ask a.world e p) s
