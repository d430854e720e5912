-- ===== src/AccessControl/Returns.antt =====
-- When the checks of cloud/src/ui/access_control.py return.
use get_receipt.Base.{
  beq-true, if◌then◌else◌, ◌⊎◌, ap, sym, subst, ◌∙◌, here, there, String, Bool, true, false, not,
  ◌&&◌, ◌||◌, ◌≡◌, ◌≢◌, ◌↔◌, refl, List, [], ◌∷◌, Has, Option, none, some, Result, ok, err,
  Bool-cases, inl, inr, arith, ◌==◌, string_eq,
}
use get_receipt.Base.Text.{is_empty}
use get_receipt.AccessControl.Owner.{
  by_identity, by_hash, by_email, by_subject, Owner, is_allowed-Owner, Owner-is_allowed,
}
use get_receipt.AccessControl.Settings.{
  code_of, Complaint, mode_invalid, allowlist_empty, issuer_allowlist_empty, config_error, Section,
  Library, Allowlists, Claims, User, Page, Step, Halt, no_subject_allowed, no_issuer_allowed,
  no_items,
}
use get_receipt.AccessControl.{
  check_allowlists, check_issuers, identity_hash, refuse, is_allowed, allowlists, claims_of,
  mode_of, fatal, fatal_if, ask_login, check_user, check_login, check_access,
}
use get_receipt.Base.Exec.{pure, continue, ◌>>=◌, ◌>>◌}

-- `st.stop` does not return.
abbrev pub Halts : Library → Type 0
Halts library = (page : Page) → (library.stop page).0 ≢ ok tt

-- The call returns.
abbrev pub Returns : Step (Unit {0}) → Page → Type 0
Returns step page = (step page).0 ≡ ok tt

bind-Returns : (m k : Step (Unit {0})) (page : Page) → Returns (m >> k) page → Returns m page
unfolding ◌>>=◌
bind-Returns m k page h = go (m page) h
  where
    go : (r : Result Halt (Unit {0}) × Page) → (continue r.0 (λ _. k) r.1).0 ≡ ok tt → r.0 ≡ ok tt
    go (ok tt, p) h = refl
    go (err e, p) h = cc h

differ : (b : Bool) → b ≡ false → b ≡ true → ⊥
differ b e f = ground (arith, e, f)

some_inj : {u v : User} → some u ≡ some v → u ≡ v
some_inj h = cc h

named_items : {P : String → Type 0} {xs : List String} → Has P xs → no_items xs ≡ false
named_items (here q) = refl
named_items (there h) = refl

shown :
    (lists : Allowlists)
    → (no_items lists.emails ≡ false)
      ⊎ ((no_items lists.subjects ≡ false)
          ⊎ ((no_items lists.identities ≡ false) ⊎ (no_items lists.identity_hashes ≡ false)))
    → no_subject_allowed lists ≡ false
shown lists h = ground (arith, h)

-- The lists that a user stands on are not all empty.
Owner-no_subject_allowed :
    (library : Library) (lists : Allowlists) (claims : Claims)
    → Owner library lists claims
    → no_subject_allowed lists ≡ false
Owner-no_subject_allowed library lists claims (by_identity n m h) =
    shown lists (inr (inr (inl (named_items h))))
Owner-no_subject_allowed library lists claims (by_hash n m h) =
    shown lists (inr (inr (inr (named_items h))))
Owner-no_subject_allowed library lists claims (by_email h g v) = shown lists (inl (named_items h))
Owner-no_subject_allowed library lists claims (by_subject h g) =
    shown lists (inr (inl (named_items h)))

is_oidc : (mode : String) → not (mode == "oidc") ≡ false → mode ≡ "oidc"
is_oidc mode h = (string_eq.beq_iff mode "oidc").0 (ground (arith, h))

-- The issuers that the test wants.
pub issuers_named :
    (lists : Allowlists)
    → (no_issuer_allowed lists ≡ false)
      ↔ (lists.issuers ≡ [] → (lists.emails ≡ []) × (lists.subjects ≡ []))
issuers_named lists = go lists.issuers lists.emails lists.subjects
  where
    go :
        (is es ss : List String)
        → (((not (no_items es) || not (no_items ss)) && no_items is) ≡ false)
          ↔ (is ≡ [] → (es ≡ []) × (ss ≡ []))
    go (i ∷ is) es ss = ((λ h q. cc q), λ h. ground arith)
    go [] [] [] = ((λ h q. (refl, refl)), λ h. refl)
    go [] [] (s ∷ ss) = ((λ h q. ground (arith, h)), λ h. cc (h refl).1)
    go [] (e ∷ es) ss = ((λ h q. ground (arith, h)), λ h. cc (h refl).0)

module _ (library : Library) where
  fatal-Returns : (complaint : Complaint) (page : Page) → Returns (fatal library complaint) page → ⊥
  unfolding fatal ◌>>=◌
  fatal-Returns complaint page h = go (library.stop _) h
    where
      go :
          (r : Result Halt (Unit {0}) × Page)
          → (continue {B = Unit} r.0 (λ _ p. (err (config_error (code_of complaint)), p)) r.1).0
            ≡ ok tt
          → ⊥
      go (ok tt, p) h = cc h
      go (err e, p) h = cc h

  -- A test that ends the call, and what comes after it.
  fatal_if-Returns :
      (test : Bool) (complaint : Complaint) (k : Step (Unit {0})) (page : Page)
      → Returns (fatal_if library test complaint >> k) page ↔ ((test ≡ false) × Returns k page)
  unfolding ◌>>=◌
  fatal_if-Returns true complaint k page = (
    (λ h. absurd (fatal-Returns complaint page (bind-Returns (fatal library complaint) k page h))),
    λ (e, h). cc e,
  )
  fatal_if-Returns false complaint k page = ((λ h. (refl, h)), λ (e, h). h)

  pub fatal_if-alone :
      (test : Bool) (complaint : Complaint) (page : Page)
      → Returns (fatal_if library test complaint) page ↔ (test ≡ false)
  unfolding pure
  fatal_if-alone true complaint page =
      ((λ h. absurd (fatal-Returns complaint page h)), λ e. ground (arith, e))
  fatal_if-alone false complaint page = ((λ h. refl), λ e. refl)

  module _ (halts : Halts library) where
    refuse-Returns : (claims : Claims) (page : Page) → Returns (refuse library claims) page → ⊥
    unfolding refuse
    refuse-Returns claims page h = elim (Bool-cases (is_empty (identity_hash library claims))) [
      | inl e ↦ halts _ (rw e at h)
      | inr e ↦ halts _ (rw e at h)
    ]

    ask_login-Returns :
        (section : Section) (page : Page) → Returns (ask_login library section) page → ⊥
    unfolding ask_login
    ask_login-Returns section page h = halts _ h

    check_user-Returns :
        (section : Section) (visitor : User) (page : Page)
        → Returns (check_user library section visitor) page
          ↔ Owner library (allowlists library section) (claims_of library visitor)
    unfolding check_user ◌>>=◌
    check_user-Returns section visitor page =
        let lists = allowlists library section in
        let claims = claims_of library visitor in
        elim (Bool-cases (is_allowed library lists claims)) [
          | inl e ↦ rw e ((λ _. is_allowed-Owner library claims lists e), λ _. refl)
          | inr e ↦ rw e (
            (λ h. absurd (refuse-Returns claims page h)),
            λ o. absurd (differ _ e (Owner-is_allowed library claims lists o)),
          )
        ]

    login-Returns :
        (logged_in : Bool) (section : Section) (user : User) (page : Page)
        → Returns
            (if logged_in then check_user library section user else ask_login library section)
            page
          ↔ ((logged_in ≡ true)
              × Owner library (allowlists library section) (claims_of library user))
    login-Returns true section user page =
        let (f, g) = check_user-Returns section user page in ((λ h. (refl, f h)), λ (e, o). g o)
    login-Returns false section user page =
        ((λ h. absurd (ask_login-Returns section page h)), λ (e, o). cc e)

    check_login-Returns :
        (section : Section) (user : Option User) (page : Page)
        → Returns (check_login library section user) page ↔ (
            (visitor : User) × (user ≡ some visitor)
            × (visitor.is_logged_in ≡ true)
            × Owner library (allowlists library section) (claims_of library visitor))
    unfolding check_login
    check_login-Returns section none page =
        ((λ h. absurd (ask_login-Returns section page h)), λ (v, e, r, o). cc e)
    check_login-Returns section (some user) page =
        let (f, g) = login-Returns user.is_logged_in section user page in
        (
          (λ h. let (l, o) = f h in (user, refl, l, o)),
          λ (v, q, l, o). g (
            ap (λ u. u.is_logged_in) (some_inj q) ∙ l,
            subst (λ u. Owner library (allowlists library section) (claims_of library u))
                (sym (some_inj q)) o,
          ),
        )

    pub check_access-Returns :
        (section : Section) (user : Option User) (page : Page)
        → Returns (check_access library section user) page ↔ (
            (visitor : User) × (mode_of library section ≡ "oidc")
            × (no_issuer_allowed (allowlists library section) ≡ false)
            × (user ≡ some visitor)
            × (visitor.is_logged_in ≡ true)
            × Owner library (allowlists library section) (claims_of library visitor))
    unfolding check_access
    check_access-Returns section user page =
        let lists = allowlists library section in
        let login = check_login library section user in
        let allowed = check_allowlists library section user in
        let issuers = check_issuers library section user in
        let (f, f') =
          fatal_if-Returns (not (mode_of library section == "oidc")) mode_invalid allowed page in
        let (g, g') = fatal_if-Returns (no_subject_allowed lists) allowlist_empty issuers page in
        let (k, k') =
          fatal_if-Returns (no_issuer_allowed lists) issuer_allowlist_empty login page in
        let (l, l') = check_login-Returns section user page in
        (
          (λ h.
              let (a, h1) = f h in
              let (b, h2) = g h1 in
              let (c, h3) = k h2 in let (v, q, i, o) = l h3 in (v, is_oidc _ a, c, q, i, o)),
          λ (v, a, c, q, i, o). f' (
            rw (beq-true (mode_of library section) "oidc" a) refl,
            g' (
              Owner-no_subject_allowed library lists (claims_of library v) o,
              k' (c, l' (v, q, i, o)),
            ),
          ),
        )
