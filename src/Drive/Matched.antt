-- ===== src/Drive/Matched.antt =====
-- The name of a file that the loop of `find_receipt` of cloud/src/workflows/drive_status.py takes.
use get_receipt.Base.{
  String, Bool, true, false, not, ◌||◌, Option, none, some, List, Result, ok, err, ◌≡◌, refl, sym,
  ap, arith, eq_iff, string_eq, if◌then◌else◌, contains, Option-cases, inl, inr,
}
use get_receipt.Base.Integers.{ℤ}
use Prim.Native.String.{◌++◌ as append}
use get_receipt.Drive.Names.{NameParts, name_parts, valid_date, optional_int, positive}
use get_receipt.Drive.{
  Unicode, DriveFile, StoredReceipt, DriveFault, match_file, normalize_partner, stored,
}

-- The file's name has the month's digits before a day of that month and a partner of the service, and
-- the receipt is the file.
pub record Named (unicode : Unicode) (prefix : String) (aliases : List String)
    (receipt : StoredReceipt) (file : DriveFile) : Type 0 where
  pub parts : NameParts
  pub named : name_parts (unicode.nfkc file.name) ≡ some parts
  pub month : parts.month_digits ≡ prefix
  pub dated : valid_date (append parts.month_digits parts.day_digits) ≡ true
  pub partner : contains aliases (normalize_partner unicode parts.partner) ≡ true
  pub same : (receipt.file_id ≡ file.id) × (receipt.file_name ≡ file.name)

module _ (unicode : Unicode) (prefix : String) (aliases : List String) (receipt : StoredReceipt)
    (file : DriveFile) where
  kept :
      (b : Bool) (o : Result DriveFault (Option StoredReceipt))
      → (if b then ok none else o) ≡ ok (some receipt)
      → (b ≡ false) × (o ≡ ok (some receipt))
  kept true o h = cc h
  kept false o h = (refl, h)

  counted :
      (r : Result DriveFault Bool) (o : Option StoredReceipt)
      → ◌≡◌ {A = Result DriveFault (Option StoredReceipt)}
          (elim r [ err e ↦ err e | ok counts ↦ ok (if counts then o else none) ])
          (ok (some receipt))
      → o ≡ some receipt
  counted (err e) o h = cc h
  counted (ok true) o h = cc h
  counted (ok false) o h = cc h

  partnered :
      (b : Bool) (o : Option StoredReceipt)
      → (if not b then none else o) ≡ some receipt
      → (b ≡ true) × (o ≡ some receipt)
  partnered true o h = (refl, h)
  partnered false o h = cc h

  or-false : (a b : Bool) → (not a || not b) ≡ false → (a ≡ true) × (b ≡ true)
  or-false true true h = (refl, refl)
  or-false true false h = cc h
  or-false false b h = cc h

  positive_size :
      (b : Bool) (size : ℤ)
      → (if b then some (stored unicode file size) else none) ≡ some receipt
      → stored unicode file size ≡ receipt
  positive_size true size h = cc h
  positive_size false size h = cc h

  sized_same :
      (o : Option ℤ)
      → ◌≡◌ {A = Option StoredReceipt}
          (elim o [
            | none ↦ none
            | some size ↦ if positive size then some (stored unicode file size) else none
          ])
          (some receipt)
      → (receipt.file_id ≡ file.id) × (receipt.file_name ≡ file.name)
  sized_same none h = cc h
  sized_same (some size) h =
      let same = positive_size (positive size) size h in
      (
        sym (ap (λ (r : StoredReceipt). r.file_id) same),
        sym (ap (λ (r : StoredReceipt). r.file_name) same),
      )

  pub match_file-Named :
      match_file unicode prefix aliases file ≡ ok (some receipt)
      → Named unicode prefix aliases receipt file
  unfolding match_file
  match_file-Named h = elim (Option-cases (name_parts (unicode.nfkc file.name))) [
    | inl e ↦ absurd (ground (arith, h, e))
    | inr (parts, e) ↦
        let (tests, rest) = kept _ _ (rw (e, match_file) at h) in
        let (month, dated) = or-false _ _ tests in
        let (partner, last) = partnered _ _ (counted _ _ rest) in
        record {
          parts = parts;
          named = e;
          month = (eq_iff parts.month_digits prefix).0 month;
          dated = dated;
          partner = partner;
          same = sized_same (optional_int file.size) last;
        }
  ]
