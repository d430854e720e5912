-- ===== src/ManualUpload/Settled.antt =====
-- What a manual upload of cloud/src/workflows/manual_upload.py does.
use get_receipt.Base.{
  subst, ℕ, ◌≤◌, String, Bool, true, false, not, ◌&&◌, ◌||◌, some, List, ◌≡◌, ◌⊎◌, inl, inr, refl,
  sym, ap, ◌∙◌, if◌then◌else◌, Result, ok, err, Result-cases, Option-cases, Bool-cases, arith,
  length, ltb,
}
use get_receipt.Base.Integers.{ℤ}
use get_receipt.Config.{
  ServiceDefinition, service_by_id, parse_month_key, expected_transaction_month,
}
use get_receipt.Acquisition.Report.{AcquisitionResult}
use get_receipt.Acquisition.Ports.{Ports, pdf_here}
use get_receipt.Acquisition.Workflow.{checked_service}
use get_receipt.Acquisition.Outcome.{Good}
use get_receipt.Acquisition.Outcome.Ended.{attempt-Good}
use get_receipt.ManualUpload.{
  PdfReader, Inspection, UploadFault, upload_error, max_manual_pdf_bytes, validate_pdf, text_in,
  has_partner, any_month, inspect_manual_receipt, requires_confirmation, warnings_of, upload_ports,
  save_manual_receipt,
}

module _ (reader : PdfReader) (service_id target_month : String) (content : List ℕ) where
  -- What an upload has to be, whatever the owner confirms.
  pub record Inspected (service : ServiceDefinition) (partner month : Bool) : Type 0 where
    pub known : service_by_id service_id ≡ ok service
    pub target : ℤ × ℕ
    pub readable : parse_month_key target_month ≡ ok target
    pub is_pdf : pdf_here content ≡ true
    pub is_small : length content ≤ max_manual_pdf_bytes
    pub transaction_month : String
    pub expected : expected_transaction_month service_id target_month ≡ ok transaction_month
    pub has_month :
        any_month reader (text_in reader content) target_month transaction_month ≡ ok month
    pub names_partner : has_partner reader service (text_in reader content) ≡ partner
    pub amount : ℤ
    pub has_amount : reader.extract_amount_yen (text_in reader content) ≡ some amount

  -- An upload that may be saved: its partner and its month are in the text, or the owner has confirmed.
  pub record Acceptable (confirmed : Bool) : Type 0 where
    pub service : ServiceDefinition
    pub partner : Bool
    pub month : Bool
    pub inspected : Inspected service partner month
    pub seen : (confirmed || partner && month) ≡ true

  validate_pdf-ok :
      pdf_here content ≡ true → length content ≤ max_manual_pdf_bytes → validate_pdf content ≡ ok tt
  unfolding validate_pdf
  validate_pdf-ok p s = rw p (small (ltb max_manual_pdf_bytes (length content)) (ground (arith, s)))
    where
      small :
          (b : Bool)
          → b ≡ false
          → ◌≡◌ {A = Result UploadFault (Unit {0})}
              (if b then err (upload_error "PDFは20MB以下にしてください。") else ok tt)
              (ok tt)
      small b e = rw e refl

  validate_pdf_sound :
      (u : Unit {0})
      → validate_pdf content ≡ ok u
      → (pdf_here content ≡ true) × (length content ≤ max_manual_pdf_bytes)
  unfolding validate_pdf
  validate_pdf_sound u h = elim (Bool-cases (pdf_here content)) [
    | inr e ↦ cc (rw e at h)
    | inl e ↦ elim (Bool-cases (ltb max_manual_pdf_bytes (length content))) [
      | inl f ↦ cc (rw (e, f) at h)
      | inr f ↦ (e, ground (arith, f))
    ]
  ]

  ok_inj : {a b : Inspection} → ◌≡◌ {A = Result UploadFault Inspection} (ok a) (ok b) → a ≡ b
  ok_inj h = cc h

  Inspected-ok :
      (service : ServiceDefinition) (partner month : Bool) (i : Inspected service partner month)
      → inspect_manual_receipt reader service_id target_month content
        ≡ ok (record {
          amount_yen = i.amount;
          partner_found = partner;
          month_found = month;
          warnings = warnings_of partner month;
        })
  unfolding inspect_manual_receipt
  Inspected-ok service partner month i =
      rw
        (
          i.known,
          i.readable,
          validate_pdf-ok i.is_pdf i.is_small,
          i.expected,
          i.has_month,
          i.names_partner,
          i.has_amount,
        )
        refl

  -- Whatever the inspection returns, the upload was inspected with that outcome.
  ok-Inspected :
      (inspection : Inspection)
      → inspect_manual_receipt reader service_id target_month content ≡ ok inspection
      → (service : ServiceDefinition) × Inspected service inspection.partner_found
          inspection.month_found
        × (inspection.warnings ≡ warnings_of inspection.partner_found inspection.month_found)
  unfolding inspect_manual_receipt
  ok-Inspected inspection h = elim (Result-cases (service_by_id service_id)) [
    | inr (e, q) ↦ cc (rw q at h)
    | inl (service, q) ↦ elim (Result-cases (parse_month_key target_month)) [
      | inr (e, r) ↦ cc (rw (q, r) at h)
      | inl (target, r) ↦ elim (Result-cases (validate_pdf content)) [
        | inr (e, v) ↦ cc (rw (q, r, v) at h)
        | inl (u, v) ↦ elim (Result-cases (expected_transaction_month service_id target_month)) [
          | inr (e, x) ↦ cc (rw (q, r, v, x) at h)
          | inl (k, x) ↦
              elim (Result-cases (any_month reader (text_in reader content) target_month k)) [
                | inr (e, m) ↦ cc (rw (q, r, v, x, m) at h)
                | inl (month, m) ↦
                    elim (Option-cases (reader.extract_amount_yen (text_in reader content))) [
                      | inl a ↦ cc (rw (q, r, v, x, m, a) at h)
                      | inr (amount, a) ↦
                          let (p, s) = validate_pdf_sound u v in
                          subst
                            (λ (i : Inspection).
                              (found : ServiceDefinition) × Inspected found i.partner_found
                                i.month_found
                              × (i.warnings ≡ warnings_of i.partner_found i.month_found))
                            (ok_inj (rw (q, r, v, x, m, a) at h))
                            (
                              service,
                              record {
                                known = q;
                                target = target;
                                readable = r;
                                is_pdf = p;
                                is_small = s;
                                transaction_month = k;
                                expected = x;
                                has_month = m;
                                names_partner = refl;
                                amount = amount;
                                has_amount = a;
                              },
                              refl,
                            )
                    ]
              ]
        ]
      ]
    ]
  ]

  asks_owner :
      (partner month confirmed : Bool) (i : Inspection)
      → i.warnings ≡ warnings_of partner month
      → (requires_confirmation i && not confirmed) ≡ not (confirmed || partner && month)
  asks_owner true true true i e = rw e refl
  asks_owner true true false i e = rw e refl
  asks_owner true false true i e = rw e refl
  asks_owner true false false i e = rw e refl
  asks_owner false month true i e = rw e refl
  asks_owner false month false i e = rw e refl

module _ {W : Type 0} (reader : PdfReader) (ports : Ports W) (service_id target_month : String)
    (content : List ℕ) (confirmed : Bool) (w : W) where
  abbrev MayBeSaved : Type 0
  MayBeSaved = Acceptable reader service_id target_month content confirmed

  -- The attempt was made, and its result is good.
  abbrev pub Saved : Type 0
  Saved =
      (service : ServiceDefinition) × (r : AcquisitionResult) × (w' : W) × (save_manual_receipt
          reader ports service_id target_month content confirmed w
        ≡ (ok r, w'))
      × Good (upload_ports reader ports content) service target_month r.outcome r

  -- The call raises and leaves the outside world as it was.
  abbrev pub Untouched : Type 0
  Untouched =
      (e : UploadFault) × (save_manual_receipt reader ports service_id target_month content
          confirmed w
        ≡ (err e, w))

  checked :
      (service : ServiceDefinition) {partner month : Bool}
      → Inspected reader service_id target_month content service partner month
      → checked_service service_id target_month ≡ some service
  unfolding checked_service
  checked service i = rw (i.known, i.readable, checked_service) refl

  attempted :
      (service : ServiceDefinition) (inspection : Inspection)
      → checked_service service_id target_month ≡ some service
      → inspect_manual_receipt reader service_id target_month content ≡ ok inspection
      → (requires_confirmation inspection && not confirmed) ≡ false
      → Saved
  unfolding save_manual_receipt
  attempted service inspection c h n =
      let (r, a, run, good) =
        attempt-Good (upload_ports reader ports content) service service_id target_month w c in
      (service, r, a.world, rw (h, n, run, save_manual_receipt) refl, good)

  refused :
      (inspection : Inspection)
      → inspect_manual_receipt reader service_id target_month content ≡ ok inspection
      → (requires_confirmation inspection && not confirmed) ≡ true
      → Untouched
  unfolding save_manual_receipt
  refused inspection h n =
      (upload_error "請求元と対象月を目視確認してから保存してください。", rw (h, n, save_manual_receipt) refl)

  not_inspected :
      (e : UploadFault)
      → inspect_manual_receipt reader service_id target_month content ≡ err e
      → Untouched
  unfolding save_manual_receipt
  not_inspected e h = (e, rw (h, save_manual_receipt) refl)

  unseen :
      (i : Inspection)
      → inspect_manual_receipt reader service_id target_month content ≡ ok i
      → (confirmed || i.partner_found && i.month_found) ≡ false
      → MayBeSaved
      → ⊥
  unseen i h s a =
      let e = ok_inj reader service_id target_month content (
        sym h
        ∙ Inspected-ok reader service_id target_month content a.service a.partner a.month
            a.inspected) in
      differ _ s (
        subst (λ (j : Inspection). (confirmed || j.partner_found && j.month_found) ≡ true) (sym e)
          a.seen)
    where
      differ : (b : Bool) → b ≡ false → b ≡ true → ⊥
      differ b f g = ground (arith, f, g)

  -- An upload that may be saved, by its service, its months, its content and its amount, and by its
  -- partner and month or the owner's confirmation, is handed to an acquisition, whose result is good;
  -- any other upload raises and leaves the outside world as it was.
  pub save_manual_receipt-Settled : (MayBeSaved × Saved) ⊎ ((MayBeSaved → ⊥) × Untouched)
  save_manual_receipt-Settled =
      elim (Result-cases (inspect_manual_receipt reader service_id target_month content)) [
        | inr (e, h) ↦ inr (
          (λ (a : MayBeSaved). cc (
              sym h
              ∙ Inspected-ok reader service_id target_month content a.service a.partner a.month
                  a.inspected)),
          not_inspected e h,
        )
        | inl (i, h) ↦
            let (service, inspected, q) = ok-Inspected reader service_id target_month content i h in
            let asks =
              asks_owner reader service_id target_month content i.partner_found i.month_found
                confirmed i q in
            elim (Bool-cases (confirmed || i.partner_found && i.month_found)) [
              | inl s ↦ inl (
                record {
                  service = service;
                  partner = i.partner_found;
                  month = i.month_found;
                  inspected = inspected;
                  seen = s;
                },
                attempted service i (checked service inspected) h (asks ∙ ap not s),
              )
              | inr s ↦ inr (unseen i h s, refused i h (asks ∙ ap not s))
            ]
      ]
