-- ===== src/Drive/Acquired.antt =====
-- An acquisition whose `receipt_finder` is `find_receipt` of cloud/src/workflows/drive_status.py, which
-- is the one that cloud/src/workflows/auto_acquisition.py takes when it is given no other.
use get_receipt.Base.{
  String, Option, none, some, List, [], ◌∷◌, ◌≡◌, ◌⊎◌, inl, inr, refl, sym, subst, ap, ◌∙◌, map,
  Result, ok, err, string_eq,
}
use get_receipt.Config.{ServiceDefinition, expected_transaction_month}
use get_receipt.Acquisition.Report.{AcquisitionResult, acquired, already_exists}
use get_receipt.Acquisition.Ports.{Ports, Item, Raised, value_of, stored_receipt_reference}
use get_receipt.Acquisition.Run.{Attempt}
use get_receipt.Acquisition.Workflow.{attempt, checked_service}
use get_receipt.Acquisition.Outcome.{Good, Listed}
use get_receipt.Acquisition.Outcome.Ended.{attempt-Good, begin}
use get_receipt.Drive.{
  Unicode, DriveFile, StoredReceipt, DriveFault, month_prefix, aliases_of, match_file, find_receipt,
}
use get_receipt.Drive.Newest.{IsLatest, Explained, find_receipt-Explained}

-- A file of the listing, and a receipt as the object whose attributes are looked up.
unfoldable pub file_of : Item → DriveFile
unfolding value_of
file_of item = record {
  id = value_of item ("id" ∷ []) "";
  name = value_of item ("name" ∷ []) "";
  web_view_link = value_of item ("webViewLink" ∷ []) "";
  mime_type = value_of item ("mimeType" ∷ []) "";
  modified_time = value_of item ("modifiedTime" ∷ []) "";
  size = value_of item ("size" ∷ []) "";
}

abbrev pub item_of : StoredReceipt → Item
item_of receipt =
    ("file_id", receipt.file_id)
    ∷ ("file_name", receipt.file_name)
    ∷ ("web_view_link", receipt.web_view_link)
    ∷ []

abbrev pub found_item : Result DriveFault (Option StoredReceipt) → Result Raised (Option Item)
found_item (ok none) = ok none
found_item (ok (some receipt)) = ok (some (item_of receipt))
found_item (err e) =
    err
      (record { type_name = "ValueError"; text = ""; code = ""; challenge_kind = ""; advice = "" })

unfoldable pub drive_finder :
    Unicode → List Item → ServiceDefinition → String → Result Raised (Option Item)
unfolding find_receipt file_of
drive_finder unicode files service target_month =
    found_item (find_receipt unicode (map (λ item. file_of item) files) service target_month)

-- A listing of Drive that was made in the world `w` has returned `files`, and the receipt of the result
-- is the latest one of its service and month among them.
pub record InDrive {W : Type 0} (ports : Ports W) (unicode : Unicode) (service : ServiceDefinition)
    (prefix : String) (w : W) (r : AcquisitionResult) : Type 0 where
  pub files : List Item
  pub listed : (ports.list_files w).0 ≡ ok files
  pub receipt : StoredReceipt
  pub is_latest :
      IsLatest
        (match_file unicode prefix (aliases_of unicode service))
        (map (λ item. file_of item) files)
        receipt
  pub reference :
      r.receipt
      ≡ some (record {
        file_id = receipt.file_id;
        file_name = receipt.file_name;
        web_view_link = receipt.web_view_link;
      })

reference_of :
    (receipt : StoredReceipt)
    → stored_receipt_reference (item_of receipt) ≡ record {
      file_id = receipt.file_id;
      file_name = receipt.file_name;
      web_view_link = receipt.web_view_link;
    }
unfolding stored_receipt_reference
reference_of receipt = refl

found_item-some :
    (o : Result DriveFault (Option StoredReceipt)) (item : Item)
    → found_item o ≡ ok (some item)
    → (receipt : StoredReceipt) × (o ≡ ok (some receipt)) × (item_of receipt ≡ item)
found_item-some (ok none) item h = cc h
found_item-some (ok (some receipt)) item h = (receipt, refl, inj h)
  where
    inj : {a b : Item} → ◌≡◌ {A = Result Raised (Option Item)} (ok (some a)) (ok (some b)) → a ≡ b
    inj h = cc h
found_item-some (err e) item h = cc h

module _ {W : Type 0} (unicode : Unicode) (ports : Ports W) (service : ServiceDefinition)
    (target_month transaction_month prefix : String)
    (expected : expected_transaction_month service.id target_month ≡ ok transaction_month)
    (prefixed : month_prefix unicode transaction_month ≡ ok prefix) where
  abbrev drive_ports : Ports W
  drive_ports = record ports { receipt_finder = drive_finder unicode }

  Listed-InDrive :
      (w : W) (r : AcquisitionResult)
      → Listed drive_ports service target_month w r
      → InDrive ports unicode service prefix w r
  unfolding drive_finder
  Listed-InDrive w r l =
      let files = map (λ item. file_of item) l.files in
      let (receipt, found, same) =
        found_item-some (find_receipt unicode files service target_month) l.item l.found in
      record {
        files = l.files;
        listed = l.listed;
        receipt = receipt;
        is_latest =
            subst (Explained (match_file unicode prefix (aliases_of unicode service)) files) found (
              (find_receipt-Explained unicode files service target_month transaction_month prefix
                expected prefixed).0);
        reference =
            l.reference
            ∙ ap (λ item. some (stored_receipt_reference item)) (sym same)
            ∙ ap (λ reference. some reference) (reference_of receipt);
      }

  -- When the service and the month are known, an attempt that searches Drive with find_receipt ends in
  -- a result; a receipt that it reports as acquired or as there already is the latest receipt of the
  -- service and the month among all the files that a call of list_files has returned.
  pub attempt-InDrive :
      (service_id : String) (world : W)
      → checked_service service_id target_month ≡ some service
      → (r : AcquisitionResult) × (a : Attempt W) × (attempt drive_ports service_id target_month
            (begin world)
          ≡ (err r, a))
        × ((r.outcome ≡ acquired) ⊎ (r.outcome ≡ already_exists)
            → (w : W) × InDrive ports unicode service prefix w r)
  attempt-InDrive service_id world known =
      let (r, a, run, good) =
        attempt-Good drive_ports service service_id target_month world known in
      (r, a, run, reported r good)
    where
      reported :
          (r : AcquisitionResult)
          → Good drive_ports service target_month r.outcome r
          → (r.outcome ≡ acquired) ⊎ (r.outcome ≡ already_exists)
          → (w : W) × InDrive ports unicode service prefix w r
      reported r good (inl e) =
          let uploaded = (subst (λ o. Good drive_ports service target_month o r) e good).0 in
          (_, Listed-InDrive _ r uploaded.listed)
      reported r good (inr e) =
          let listing = (subst (λ o. Good drive_ports service target_month o r) e good).0 in
          (listing.0, Listed-InDrive listing.0 r listing.1)
