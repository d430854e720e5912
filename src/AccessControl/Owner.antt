-- ===== src/AccessControl/Owner.antt =====
-- The identities that cloud/src/ui/access_control.py lets in, and its decision.
use Prim.Native.String.append.{cons}
use get_receipt.Base.{
  subst, Bool-cases, inl, inr, ap, refl, ◌==◌, string_eq, any-Has, Has-any, arith, ◌⊎◌, ◌↔◌, String,
  Bool, true, false, not, ◌&&◌, ◌||◌, ◌≡◌, ◌≢◌, List, Has, any,
}
use get_receipt.Base.Text.{is_empty}
use get_receipt.AccessControl.Settings.{Library, Allowlists, Claims, rstrip_slash, identity_of}
use get_receipt.AccessControl.{append, identity_hash, is_allowed}

-- What makes an account the owner's, without an order of the tests.
pub data Owner (library : Library) (lists : Allowlists) (claims : Claims) : Type 0 where
  by_identity :
      claims.issuer ≢ ""
      → claims.subject ≢ ""
      → Has (λ item. identity_of claims ≡ item) lists.identities
      → Owner library lists claims
  by_hash :
      claims.issuer ≢ ""
      → claims.subject ≢ ""
      → Has
          (λ item. append "sha256:" (library.sha256_hexdigest (identity_of claims)) ≡ item)
          lists.identity_hashes
      → Owner library lists claims
  by_email :
      Has (λ item. claims.email ≡ item) lists.emails
      → Has (λ item. claims.issuer ≡ rstrip_slash item) lists.issuers
      → claims.email_verified ≡ true
      → Owner library lists claims
  by_subject :
      Has (λ item. claims.subject ≡ item) lists.subjects
      → Has (λ item. claims.issuer ≡ rstrip_slash item) lists.issuers
      → Owner library lists claims

pub is_empty_iff : (s : String) → (is_empty s ≡ true) ↔ (s ≡ "")
is_empty_iff String.[] = (λ h. refl, λ h. refl)
is_empty_iff (String.◌∷◌ c s) = (λ h. cc h, λ h. cc h)

beq-Has :
    (a : String) (f : String → String) (xs : List String)
    → (any (λ item. a == f item) xs ≡ true) ↔ Has (λ item. a ≡ f item) xs
beq-Has a f xs = (
  any-Has _ _ (λ item. (string_eq.beq_iff a (f item)).0) xs,
  Has-any _ _ (λ item. (string_eq.beq_iff a (f item)).1) xs,
)

is_empty-append : (s x : String) → is_empty s ≡ false → is_empty (append s x) ≡ false
is_empty-append String.[] x h = ground (arith, h)
is_empty-append (String.◌∷◌ c s) x h = ap is_empty (cons c s x)

hash_shown : (x : String) → is_empty (append "sha256:" x) ≡ false
hash_shown x = is_empty-append "sha256:" x refl

-- The shape of the test, and its ways to succeed.
ways :
    (n m i k h e g v s : Bool)
    → ((n && m && i || (k && h || (e && g && v || s && g))) ≡ true) ↔ (
        ((n ≡ true) × (m ≡ true) × (i ≡ true))
        ⊎ (((k ≡ true) × (h ≡ true))
            ⊎ (((e ≡ true) × (g ≡ true) × (v ≡ true)) ⊎ ((s ≡ true) × (g ≡ true)))))
ways n m i k h e g v s = ground arith

pub filled : (s : String) → (not (is_empty s) ≡ true) ↔ (s ≢ "")
filled s = (
  (λ h q. ground (arith, h, (is_empty_iff s).1 q)),
  (λ n. elim (Bool-cases (is_empty s)) [
    | inl e ↦ absurd (n ((is_empty_iff s).0 e))
    | inr e ↦ rw e refl
  ]),
)

module _ (library : Library) (claims : Claims) where
  hash_present :
      claims.issuer ≢ ""
      → claims.subject ≢ ""
      → identity_hash library claims
        ≡ append "sha256:" (library.sha256_hexdigest (identity_of claims))
  unfolding identity_hash
  hash_present n m = rw ((filled claims.issuer).1 n, (filled claims.subject).1 m) refl

  hash_absent :
      (not (is_empty claims.issuer) && not (is_empty claims.subject)) ≡ false
      → not (is_empty (identity_hash library claims)) ≡ false
  unfolding identity_hash
  hash_absent e = rw e refl

  hash_claims :
      not (is_empty (identity_hash library claims)) ≡ true
      → (claims.issuer ≢ "") × (claims.subject ≢ "")
  hash_claims h =
      elim (Bool-cases (not (is_empty claims.issuer) && not (is_empty claims.subject))) [
        | inl e ↦ (
          (filled claims.issuer).0 (ground (arith, e)),
          (filled claims.subject).0 (ground (arith, e)),
        )
        | inr e ↦ absurd (ground (arith, h, hash_absent e))
      ]

  module _ (lists : Allowlists) where
    allowed_ways : (is_allowed library lists claims ≡ true) ↔ (
        ((not (is_empty claims.issuer) ≡ true)
          × (not (is_empty claims.subject) ≡ true)
          × (any (λ item. identity_of claims == item) lists.identities ≡ true))
        ⊎ (((not (is_empty (identity_hash library claims)) ≡ true)
              × (any (λ item. identity_hash library claims == item) lists.identity_hashes ≡ true))
            ⊎ (((any (λ item. claims.email == item) lists.emails ≡ true)
                  × (any (λ item. claims.issuer == rstrip_slash item) lists.issuers ≡ true)
                  × (claims.email_verified ≡ true))
                ⊎ ((any (λ item. claims.subject == item) lists.subjects ≡ true)
                    × (any (λ item. claims.issuer == rstrip_slash item) lists.issuers ≡ true)))))
    unfolding is_allowed
    allowed_ways = ways _ _ _ _ _ _ _ _ _

    pub Owner-is_allowed : Owner library lists claims → is_allowed library lists claims ≡ true
    Owner-is_allowed (by_identity n m h) =
        allowed_ways.1 (
          inl ((filled claims.issuer).1 n, (filled claims.subject).1 m, (beq-Has _ (λ s. s) _).1 h))
    Owner-is_allowed (by_hash n m h) =
        let e = hash_present n m in
        allowed_ways.1 (
          inr (
            inl (
              rw (e, hash_shown (library.sha256_hexdigest (identity_of claims))) refl,
              rw e ((beq-Has _ (λ s. s) _).1 h),
            )))
    Owner-is_allowed (by_email h g v) =
        allowed_ways.1 (inr (inr (inl ((beq-Has _ (λ s. s) _).1 h, (beq-Has _ _ _).1 g, v))))
    Owner-is_allowed (by_subject h g) =
        allowed_ways.1 (inr (inr (inr ((beq-Has _ (λ s. s) _).1 h, (beq-Has _ _ _).1 g))))

    pub is_allowed-Owner : is_allowed library lists claims ≡ true → Owner library lists claims
    is_allowed-Owner h = elim (allowed_ways.0 h) [
      | inl (n, m, i) ↦
          by_identity ((filled claims.issuer).0 n) ((filled claims.subject).0 m)
            ((beq-Has _ (λ s. s) _).0 i)
      | inr (inl (k, i)) ↦
          let (n, m) = hash_claims k in
          by_hash n m (
            subst (λ hash. Has (λ item. hash ≡ item) lists.identity_hashes) (hash_present n m)
              ((beq-Has _ (λ s. s) _).0 i))
      | inr (inr (inl (e, g, v))) ↦ by_email ((beq-Has _ (λ s. s) _).0 e) ((beq-Has _ _ _).0 g) v
      | inr (inr (inr (s, g))) ↦ by_subject ((beq-Has _ (λ s. s) _).0 s) ((beq-Has _ _ _).0 g)
    ]
