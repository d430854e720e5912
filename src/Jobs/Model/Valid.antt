-- ===== src/Jobs/Model/Valid.antt =====
-- A job that its checks have accepted is a fixed point of them, and what they establish.
use get_receipt.Base.{all, true, ◌∙◌, String, ◌≡◌, refl, ap, sym, ok, arith, false}
use get_receipt.Base.Text.{strip, strip-strip, is_empty}
use get_receipt.Jobs.Model.{
  check_services, is_service_id, Job, validate, check_job, require_nonempty,
}

pub validate-eq : (j k : Job) → validate j ≡ ok k → k ≡ record j { owner = strip j.owner }
unfolding validate require_nonempty
validate-eq j k h = ground arith

pub validate-check_job : (j k : Job) → validate j ≡ ok k → check_job j ≡ ok tt
unfolding validate require_nonempty
validate-check_job j k h = ground arith

pub validate-nonempty : (j k : Job) → validate j ≡ ok k → is_empty (strip j.owner) ≡ false
unfolding validate require_nonempty
validate-nonempty j k h = ground arith

-- What the store relies on: such a job reads back unchanged.
abbrev pub IsValid : Job → Type 0
IsValid j = validate j ≡ ok j

pub IsValid-intro :
    (j : Job) → strip j.owner ≡ j.owner → is_empty j.owner ≡ false → check_job j ≡ ok tt → IsValid j
unfolding validate require_nonempty
IsValid-intro j o e c = rw (o, e, c) refl

pub IsValid-owner : (j : Job) → IsValid j → strip j.owner ≡ j.owner
IsValid-owner j v = sym (ap owner_of (validate-eq j j v))
  where
    owner_of : Job → String
    owner_of k = k.owner

-- What construction returns, a later construction from the same fields returns unchanged.
pub validate-IsValid : (j k : Job) → validate j ≡ ok k → IsValid k
unfolding check_job get_receipt.Jobs.Model.check_services
validate-IsValid j k h = rw (validate-eq j k h) (
    IsValid-intro (record j { owner = strip j.owner }) (strip-strip j.owner)
      (validate-nonempty j k h) (validate-check_job j k h))

pub IsValid-read : (j k : Job) → IsValid j → validate j ≡ ok k → k ≡ j
IsValid-read j k v h = cc

pub IsValid-nonempty : (j : Job) → IsValid j → is_empty j.owner ≡ false
IsValid-nonempty j v = ap is_empty (sym (IsValid-owner j v)) ∙ validate-nonempty j j v

-- A checked job asks for service identifiers only.
pub IsValid-service_ids : (j : Job) → IsValid j → all is_service_id j.service_ids ≡ true
unfolding check_job check_services
IsValid-service_ids j v = from_check (validate-check_job j j v)
  where
    from_check : check_job j ≡ ok tt → all is_service_id j.service_ids ≡ true
    from_check h = ground (arith, h)
