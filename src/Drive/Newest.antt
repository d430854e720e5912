-- ===== src/Drive/Newest.antt =====
-- What `find_receipt` of cloud/src/workflows/drive_status.py finds.
use get_receipt.Base.{
  ◌>>=◌, branches, ℕ, String, true, false, Option, none, some, List, [], ◌∷◌, ◌≡◌, inl, inr, refl,
  sym, subst, ap, ◌∙◌, ◌==◌, nat_eq, Result, ok, err, All, Has, here, there, Bool-cases, arith, ltb,
  list_beq,
}
use get_receipt.Config.{ServiceDefinition, expected_transaction_month}
use get_receipt.Drive.{
  Unicode, DriveFile, StoredReceipt, DriveFault, key_of, key_lt, latest_from, latest, month_prefix,
  aliases_of, match_file, matches_of, find_receipt,
}
use get_receipt.Drive.Matched.{Named, match_file-Named}
use get_receipt.Drive.Order.{lex, Ordered, Equal, lex-Ordered, not-lt}

ltb-Ordered : Ordered ltb
ltb-Ordered = record {
  trans = λ a b c h k. ground (arith, h, k);
  tri = λ a b. ground arith;
  irrefl = λ a. ground arith;
}

nat_beq-Equal : Equal (λ (x y : ℕ). x == y)
nat_beq-Equal = record { sound = λ a b h. ground (arith, h); same = λ a. ground arith }

list_beq-Equal : Equal (list_beq {A = ℕ})
list_beq-Equal = record { sound = sound; same = same }
  where
    sound : (xs ys : List ℕ) → list_beq xs ys ≡ true → xs ≡ ys
    sound [] [] h = refl
    sound [] (y ∷ ys) h = ground (arith, h)
    sound (x ∷ xs) [] h = ground (arith, h)
    sound (x ∷ xs) (y ∷ ys) h =
        let e : x ≡ y = ground (arith, h) in let f = sound xs ys (ground (arith, h)) in cc (e, f)

    same : (xs : List ℕ) → list_beq xs xs ≡ true
    same [] = refl
    same (x ∷ xs) = ground (arith, same xs)

keys-Ordered : Ordered (lex (lex ltb (λ x y. x == y)) list_beq)
keys-Ordered = lex-Ordered (lex-Ordered ltb-Ordered nat_beq-Equal) list_beq-Equal

-- Receipts are ordered by their keys.
not-key_lt : (a b c : StoredReceipt) → key_lt a b ≡ false → key_lt b c ≡ false → key_lt a c ≡ false
unfolding key_lt
not-key_lt a b c h k = not-lt keys-Ordered (key_of a) (key_of b) (key_of c) h k

key_lt-same : (a : StoredReceipt) → key_lt a a ≡ false
unfolding key_lt
key_lt-same a = keys-Ordered.irrefl (key_of a)

key_lt-asym : (a b : StoredReceipt) → key_lt a b ≡ true → key_lt b a ≡ false
unfolding key_lt
key_lt-asym a b h = elim (Bool-cases (key_lt b a)) [
  | inr e ↦ e
  | inl e ↦ absurd (
      ground (
        arith,
        keys-Ordered.trans (key_of a) (key_of b) (key_of a) h e,
        keys-Ordered.irrefl (key_of a),
      ))
]

-- A receipt of a list, which none of it is behind.
abbrev Greatest : StoredReceipt → List StoredReceipt → Type 0
Greatest r receipts = All (λ m. key_lt r m ≡ false) receipts

latest_from-Greatest :
    (best : StoredReceipt) (receipts : List StoredReceipt)
    → (key_lt (latest_from best receipts) best ≡ false)
      × Greatest (latest_from best receipts) receipts
unfolding latest_from
latest_from-Greatest best [] = (key_lt-same best, tt)
latest_from-Greatest best (m ∷ receipts) =
    branches
      (λ (x : StoredReceipt).
        (key_lt (latest_from x receipts) best ≡ false)
        × ((key_lt (latest_from x receipts) m ≡ false)
            × Greatest (latest_from x receipts) receipts))
      (key_lt best m) m best
      (λ e.
        let (h, k) = latest_from-Greatest m receipts in
        (not-key_lt (latest_from m receipts) m best h (key_lt-asym best m e), (h, k)))
      (λ e.
        let (h, k) = latest_from-Greatest best receipts in
        (h, (not-key_lt (latest_from best receipts) best m h e, k)))

latest_from-Has :
    (best : StoredReceipt) (receipts : List StoredReceipt)
    → Has (λ m. m ≡ latest_from best receipts) (best ∷ receipts)
unfolding latest_from
latest_from-Has best [] = here refl
latest_from-Has best (m ∷ receipts) = elim (Bool-cases (key_lt best m)) [
  | inl e ↦ rw e (there (latest_from-Has m receipts))
  | inr e ↦ rw e (skip (latest_from-Has best receipts))
]
  where
    skip : {P : StoredReceipt → Type 0} → Has P (best ∷ receipts) → Has P (best ∷ m ∷ receipts)
    skip (here q) = here q
    skip (there k) = there (there k)

-- A receipt that a file is, which no file's receipt comes after.
pub record IsLatest (match : DriveFile → Result DriveFault (Option StoredReceipt))
    (files : List DriveFile) (receipt : StoredReceipt) : Type 0 where
  pub is_matched : Has (λ file. match file ≡ ok (some receipt)) files
  pub is_latest :
      All (λ file. (m : StoredReceipt) → match file ≡ ok (some m) → key_lt receipt m ≡ false) files

-- An outcome of the search that the files account for.
abbrev pub Explained :
    (DriveFile → Result DriveFault (Option StoredReceipt))
    → List DriveFile
    → Result DriveFault (Option StoredReceipt)
    → Type 0
Explained match files (ok none) = All (λ file. match file ≡ ok none) files
Explained match files (ok (some receipt)) = IsLatest match files receipt
Explained match files (err e) = Has (λ file. match file ≡ err e) files

module _ (unicode : Unicode) (prefix : String) (aliases : List String) where
  abbrev match : DriveFile → Result DriveFault (Option StoredReceipt)
  match = match_file unicode prefix aliases

  -- The receipts of the files in their order.
  data Collected : List DriveFile → List StoredReceipt → Type 0 where
    no_files : Collected [] []
    passed :
        {file : DriveFile} {files : List DriveFile} {receipts : List StoredReceipt}
        → match file ≡ ok none
        → Collected files receipts
        → Collected (file ∷ files) receipts
    taken :
        {file : DriveFile} {files : List DriveFile} {receipt : StoredReceipt}
        {receipts : List StoredReceipt}
        → match file ≡ ok (some receipt)
        → Collected files receipts
        → Collected (file ∷ files) (receipt ∷ receipts)

  abbrev Gathered : List DriveFile → Result DriveFault (List StoredReceipt) → Type 0
  Gathered files (ok receipts) = Collected files receipts
  Gathered files (err e) = Has (λ file. match file ≡ err e) files

  matches_of-Gathered :
      (files : List DriveFile) → Gathered files (matches_of unicode prefix aliases files)
  unfolding matches_of
  matches_of-Gathered [] = no_files
  matches_of-Gathered (file ∷ files) =
      go (match file) refl (matches_of unicode prefix aliases files) (matches_of-Gathered files)
    where
      go :
          (r : Result DriveFault (Option StoredReceipt))
          → match file ≡ r
          → (rest : Result DriveFault (List StoredReceipt)) → Gathered files rest
          → Gathered (file ∷ files) (elim r as (λ _. Result DriveFault (List StoredReceipt)) [
            | err e ↦ err e
            | ok none ↦ rest
            | ok (some receipt) ↦ elim rest as (λ _. Result DriveFault (List StoredReceipt)) [
              | ok receipts ↦ ok (receipt ∷ receipts)
              | err e ↦ err e
            ]
          ])
      go (err e) q rest g = here q
      go (ok none) q (ok receipts) g = passed q g
      go (ok none) q (err e) g = there g
      go (ok (some receipt)) q (ok receipts) g = taken q g
      go (ok (some receipt)) q (err e) g = there g

  receipt_inj :
      {a b : StoredReceipt}
      → ◌≡◌ {A = Result DriveFault (Option StoredReceipt)} (ok (some a)) (ok (some b))
      → a ≡ b
  receipt_inj h = cc h

  -- A receipt among the collected ones is a file's.
  Collected-Has :
      (r : StoredReceipt) {files : List DriveFile} {receipts : List StoredReceipt}
      → Collected files receipts
      → Has (λ m. m ≡ r) receipts
      → Has (λ file. match file ≡ ok (some r)) files
  Collected-Has r (passed q c) h = there (Collected-Has r c h)
  Collected-Has r (taken q c) (here e) = here (q ∙ ap (λ m. ok (some m)) e)
  Collected-Has r (taken q c) (there h) = there (Collected-Has r c h)
  Collected-Has r no_files h = elim h [ ]

  Collected-All :
      (r : StoredReceipt) {files : List DriveFile} {receipts : List StoredReceipt}
      → Collected files receipts
      → Greatest r receipts
      → All (λ file. (m : StoredReceipt) → match file ≡ ok (some m) → key_lt r m ≡ false) files
  Collected-All r no_files g = tt
  Collected-All r (passed q c) g = ((λ m h. cc (sym q ∙ h)), Collected-All r c g)
  Collected-All r (taken q c) (g, gs) =
      ((λ m h. subst (λ x. key_lt r x ≡ false) (receipt_inj (sym q ∙ h)) g), Collected-All r c gs)

  latest-Explained :
      (files : List DriveFile) (receipts : List StoredReceipt)
      → Collected files receipts
      → Explained match files (ok (latest receipts))
  unfolding latest
  latest-Explained files [] c = none_taken c
    where
      none_taken : {fs : List DriveFile} → Collected fs [] → All (λ file. match file ≡ ok none) fs
      none_taken no_files = tt
      none_taken (passed q d) = (q, none_taken d)
  latest-Explained files (receipt ∷ receipts) c = record {
    is_matched = Collected-Has (latest_from receipt receipts) c (latest_from-Has receipt receipts);
    is_latest =
        Collected-All (latest_from receipt receipts) c (latest_from-Greatest receipt receipts);
  }

  collected-Explained :
      (files : List DriveFile) (r : Result DriveFault (List StoredReceipt))
      → Gathered files r
      → Explained match files (r >>= λ receipts. ok (latest receipts))
  collected-Explained files (ok receipts) g = latest-Explained files receipts g
  collected-Explained files (err e) g = g

find_receipt_outcome :
    (unicode : Unicode) (files : List DriveFile) (service : ServiceDefinition)
    (target_month transaction_month prefix : String)
    → expected_transaction_month service.id target_month ≡ ok transaction_month
    → month_prefix unicode transaction_month ≡ ok prefix
    → Explained
        (match_file unicode prefix (aliases_of unicode service))
        files
        (find_receipt unicode files service target_month)
unfolding find_receipt
find_receipt_outcome unicode files service target_month transaction_month prefix q p =
    rw (q, p)
      (collected-Explained unicode prefix (aliases_of unicode service) files
        (matches_of unicode prefix (aliases_of unicode service) files)
        (matches_of-Gathered unicode prefix (aliases_of unicode service) files))

Has-map :
    {P Q : DriveFile → Type 0} {files : List DriveFile}
    → ((file : DriveFile) → P file → Q file)
    → Has P files
    → Has Q files
Has-map k (here p) = here (k _ p)
Has-map k (there h) = there (Has-map k h)

-- For a service and a usage month whose transaction month and prefix are known, find_receipt returns
-- no receipt when no file is one of that month, and otherwise the receipt of a file that no file's
-- receipt comes after, by the time of its change, its name and its identifier; it raises only what
-- the test of some file raises. The receipt that it returns has the identifier and the name of a file
-- whose name has the month's digits, a day of the month and a partner of the service.
pub find_receipt-Explained :
    (unicode : Unicode) (files : List DriveFile) (service : ServiceDefinition)
    (target_month transaction_month prefix : String)
    → expected_transaction_month service.id target_month ≡ ok transaction_month
    → month_prefix unicode transaction_month ≡ ok prefix
    → Explained
        (match_file unicode prefix (aliases_of unicode service))
        files
        (find_receipt unicode files service target_month)
      × ((receipt : StoredReceipt)
          → find_receipt unicode files service target_month ≡ ok (some receipt)
          → Has (Named unicode prefix (aliases_of unicode service) receipt) files)
find_receipt-Explained unicode files service target_month transaction_month prefix q p =
    let aliases = aliases_of unicode service in
    let explained =
      find_receipt_outcome unicode files service target_month transaction_month prefix q p in
    (
      explained,
      λ receipt e.
          Has-map (match_file-Named unicode prefix aliases receipt)
            (subst (Explained (match_file unicode prefix aliases) files) e explained).is_matched,
    )
