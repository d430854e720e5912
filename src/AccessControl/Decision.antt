-- ===== src/AccessControl/Decision.antt =====
-- `require_owner_access` of cloud/src/ui/access_control.py against the sessions that it should let in.
use get_receipt.Base.{
  if◌then◌else◌, any-All, sym, subst, ◌∙◌, String, Bool, true, false, not, ◌||◌, ◌≡◌, ◌≢◌, ◌↔◌,
  refl, List, [], ◌∷◌, any, All, Option, some, Result, ok, err, Bool-cases, inl, inr, arith,
  string_eq,
}
use get_receipt.Base.Text.{is_empty, strip}
use get_receipt.AccessControl.Owner.{Owner, is_empty_iff}
use get_receipt.AccessControl.Settings.{
  not_configured, Entry, found, missing, broken, Section, Library, User, Page, Halt,
  no_issuer_allowed, sensitive_sections, sensitive_variables, sensitive_configured, any_present,
  has_keys, section_of, table, single,
}
use get_receipt.AccessControl.{allowlists, claims_of, mode_of, require_owner_access}
use get_receipt.AccessControl.Returns.{
  Halts, Returns, fatal_if-alone, check_access-Returns, issuers_named,
}

-- A section that holds nothing.
pub data Vacant : Entry → Type 0 where
  no_entry : Vacant missing
  no_pairs : Vacant (found (table []))

-- The sessions that may go on: of an instance without anything to protect, and of the owner, by a
-- section whose mode is OIDC and which names an issuer when it allows addresses or subjects.
pub data Admitted (library : Library) (secrets : String → Entry) (getenv : String → String)
    (user : Option User) : Type 0 where
  unprotected :
      secrets "app_access" ≡ missing
      → All (λ name. Vacant (secrets name)) sensitive_sections
      → All (λ name. strip (getenv name) ≡ "") sensitive_variables
      → Admitted library secrets getenv user
  as_owner :
      (section : Section) (visitor : User)
      → secrets "app_access" ≡ found section
      → mode_of library section ≡ "oidc"
      → (let lists = allowlists library section in
          lists.issuers ≡ [] → (lists.emails ≡ []) × (lists.subjects ≡ []))
      → user ≡ some visitor
      → visitor.is_logged_in ≡ true
      → Owner library (allowlists library section) (claims_of library visitor)
      → Admitted library secrets getenv user

-- No lookup of the secrets fails in another way than by a missing section.
abbrev pub Readable : (String → Entry) → Type 0
Readable secrets = (name : String) → secrets name ≢ broken

abbrev is_present : Entry → Bool
is_present (found section) = has_keys (some section)
is_present missing = false
is_present broken = false

is_present-Vacant : (entry : Entry) → entry ≢ broken → (is_present entry ≡ false) ↔ Vacant entry
is_present-Vacant (found (table [])) n = (λ h. no_pairs, λ v. refl)
is_present-Vacant (found (table (pair ∷ pairs))) n = (λ h. ground (arith, h), λ v. elim v [ ])
is_present-Vacant (found single) n = (λ h. ground (arith, h), λ v. elim v [ ])
is_present-Vacant missing n = (λ h. no_entry, λ v. refl)
is_present-Vacant broken n = absurd (n refl)

neither : (a b : Bool) → ((a || b) ≡ false) ↔ ((a ≡ false) × (b ≡ false))
neither a b = ground arith

found_inj : {s t : Section} → found s ≡ found t → s ≡ t
found_inj h = cc h

-- What lets a session in by a section.
abbrev OwnedBy : Library → Option User → Section → Type 0
OwnedBy library user section =
    (visitor : User) × (mode_of library section ≡ "oidc")
    × (no_issuer_allowed (allowlists library section) ≡ false)
    × (user ≡ some visitor)
    × (visitor.is_logged_in ≡ true)
    × Owner library (allowlists library section) (claims_of library visitor)

Admitted-OwnedBy :
    (library : Library) {secrets : String → Entry} {getenv : String → String} {user : Option User}
    (section : Section)
    → secrets "app_access" ≡ found section
    → Admitted library secrets getenv user
    → OwnedBy library user section
Admitted-OwnedBy library section q (unprotected e a b) = cc (sym e ∙ q)
Admitted-OwnedBy library {user = user} section q (as_owner section' v e m n u l o) =
    subst (λ s. OwnedBy library user s) (found_inj (sym e ∙ q))
      (v, m, (issuers_named (allowlists library section')).1 n, u, l, o)

Admitted-missing :
    (library : Library) {secrets : String → Entry} {getenv : String → String} {user : Option User}
    → secrets "app_access" ≡ missing
    → Admitted library secrets getenv user
    → All (λ name. Vacant (secrets name)) sensitive_sections
      × All (λ name. strip (getenv name) ≡ "") sensitive_variables
Admitted-missing library q (unprotected e a b) = (a, b)
Admitted-missing library q (as_owner section v e m n u l o) = cc (sym e ∙ q)

module _ (secrets : String → Entry) (readable : Readable secrets) where
  any_present-any :
      (names : List String)
      → any_present secrets names ≡ ok (any (λ name. is_present (secrets name)) names)
  unfolding any_present
  any_present-any [] = refl
  any_present-any (name ∷ names) =
      go (secrets name) (readable name) (any_present secrets names) (any_present-any names)
    where
      go :
          (entry : Entry)
          → entry ≢ broken
          → (rest : Result Halt Bool) → rest ≡ ok (any (λ name. is_present (secrets name)) names)
          → (elim (section_of entry) as (λ _. Result Halt Bool) [
            | ok section ↦ if has_keys section then ok true else rest
            | err halt ↦ err halt
          ])
            ≡ ok (is_present entry || any (λ name. is_present (secrets name)) names)
      go (found section) n rest q = elim (Bool-cases (has_keys (some section))) [
        | inl e ↦ rw e refl
        | inr e ↦ rw e q
      ]
      go missing n rest q = q
      go broken n rest q = absurd (n refl)

  blank_iff : (s : String) → (not (is_empty s) ≡ false) ↔ (s ≡ "")
  blank_iff String.[] = (λ h. refl, λ h. refl)
  blank_iff (String.◌∷◌ c s) =
      (λ h. ground (arith, h), λ h. ground (arith, (is_empty_iff (String.◌∷◌ c s)).1 h))

  module _ (getenv : String → String) where
    abbrev Unprotected : Type 0
    Unprotected =
        All (λ name. Vacant (secrets name)) sensitive_sections
        × All (λ name. strip (getenv name) ≡ "") sensitive_variables

    nothing-Unprotected :
        ((any (λ name. is_present (secrets name)) sensitive_sections
            || any (λ name. not (is_empty (strip (getenv name)))) sensitive_variables)
          ≡ false)
        ↔ Unprotected
    nothing-Unprotected =
        let (f, f') =
          any-All (λ name. is_present (secrets name)) (λ name. Vacant (secrets name))
            (λ name. is_present-Vacant (secrets name) (readable name)) sensitive_sections in
        let (g, g') =
          any-All (λ name. not (is_empty (strip (getenv name)))) (λ name. strip (getenv name) ≡ "")
            (λ name. blank_iff (strip (getenv name))) sensitive_variables in
        (
          (λ h. let (a, b) = (neither _ _).0 h in (f a, g b)),
          λ (a, b). (neither _ _).1 (f' a, g' b),
        )

    sensitive-any :
        sensitive_configured secrets getenv
        ≡ ok (
            any (λ name. is_present (secrets name)) sensitive_sections
            || any (λ name. not (is_empty (strip (getenv name)))) sensitive_variables)
    unfolding sensitive_configured
    sensitive-any = go (any_present secrets sensitive_sections) (any_present-any sensitive_sections)
      where
        go :
            (present : Result Halt Bool) {b : Bool}
            → present ≡ ok b
            → (elim present as (λ _. Result Halt Bool) [
              | ok present ↦ ok (
                  present || any (λ name. not (is_empty (strip (getenv name)))) sensitive_variables)
              | err halt ↦ err halt
            ])
              ≡ ok (b || any (λ name. not (is_empty (strip (getenv name)))) sensitive_variables)
        go present q = rw q refl

    -- When `st.stop` does not return and no lookup of the secrets fails but by a missing section,
    -- `require_owner_access` returns exactly for the sessions that are to be admitted.
    pub require_owner_access-Admitted :
        (library : Library)
        → Halts library
        → (user : Option User) (page : Page)
        → Returns (require_owner_access library secrets getenv user) page
          ↔ Admitted library secrets getenv user
    unfolding require_owner_access
    require_owner_access-Admitted library halts user page = go (secrets "app_access") refl
      where
        go :
            (entry : Entry)
            → secrets "app_access" ≡ entry
            → Returns (require_owner_access library secrets getenv user) page
              ↔ Admitted library secrets getenv user
        go (found section) q =
            let (f, g) = check_access-Returns library halts section user page in
            rw (q, sensitive-any)
              (
                (λ h.
                    let (v, m, c, e, l, o) = f h in
                    as_owner section v q m ((issuers_named (allowlists library section)).0 c) e l
                      o),
                λ a. g (Admitted-OwnedBy library section q a),
              )
        go missing q =
            let (f, g) = fatal_if-alone library _ not_configured page in
            let (k, l) = nothing-Unprotected in
            rw (q, sensitive-any)
              (
                (λ h. let (a, b) = k (f h) in unprotected q a b),
                λ a. g (l (Admitted-missing library q a)),
              )
        go broken q = absurd (readable _ q)
