-- ===== src/MailCodes/Sent.antt =====
-- The messages of a provider, as `_read_codes` of cloud/src/automation/mail_codes.py sees them.
use Prim.Native.String.{◌++◌ as append}
use Prim.Native.String.append.{cons, nil}
use get_receipt.Base.{
  ℕ, ◌≤◌, String, Bool, true, false, not, ◌||◌, some, List, [], ◌∷◌, ◌≡◌, ◌⊎◌, inl, inr, refl, sym,
  ap, ◌∙◌, map, filter, any, ◌==◌, string_eq, branches, leb, Has, here, there, Bool-cases,
  Option-cases, arith,
}
use get_receipt.Base.Text.{is_empty}
use get_receipt.MailCodes.{
  Texts, Message, MailCodeSource, sender_matches, matches_domain, parse_timestamp, extract_code,
  folded, after_at, ends_with, is_within,
}
use get_receipt.MailCodes.Reader.{Sight, skipped, fresh, recent, old, by_age, sight}

-- A domain itself, or one below it.
abbrev pub Within : String → String → Type 0
Within domain expected =
    (domain ≡ expected) ⊎ ((prefix : String) × (domain ≡ append prefix (append "." expected)))

-- The part behind the last `@` is of a domain that the provider sends from.
abbrev pub FromProvider : Texts → MailCodeSource → String → Type 0
FromProvider texts source address =
    (domain : String) × (after_at (folded texts address) ≡ some domain)
    × Has (λ item. (is_empty (folded texts item) ≡ false) × Within domain (folded texts item))
        source.sender_domains

-- A code that a message of the provider carries, received at an instant or later.
pub record Sent (texts : Texts) (source : MailCodeSource) (Real : Message → Type 0) (since : ℕ)
    (code : String) : Type 0 where
  pub message : Message
  pub real : Real message
  pub of_provider : FromProvider texts source message.address
  pub carries : extract_code texts source message ≡ code
  pub filled : is_empty code ≡ false
  pub instant : ℕ
  pub stamped : parse_timestamp texts message.received ≡ some instant
  pub in_time : since ≤ instant

ends_with-prefix :
    (suffix s : String) → ends_with suffix s ≡ true → (prefix : String) × (s ≡ append prefix suffix)
unfolding ends_with
ends_with-prefix suffix String.[] h =
    ("", sym (nil suffix ∙ sym ((string_eq.beq_iff String.[] suffix).0 h)))
ends_with-prefix suffix (String.◌∷◌ c s) h = elim (Bool-cases (String.◌∷◌ c s == suffix)) [
  | inl e ↦ ("", sym (nil suffix ∙ sym ((string_eq.beq_iff (String.◌∷◌ c s) suffix).0 e)))
  | inr e ↦
      let (prefix, q) = ends_with-prefix suffix s (second _ _ h e) in
      (String.◌∷◌ c prefix, ap (λ t. String.◌∷◌ c t) q ∙ sym (cons c prefix suffix))
]
  where
    second : (a b : Bool) → (a || b) ≡ true → a ≡ false → b ≡ true
    second a b h e = ground (arith, h, e)

is_within-Within :
    (domain expected : String) → is_within domain expected ≡ true → Within domain expected
is_within-Within domain expected h = elim (Bool-cases (domain == expected)) [
  | inl e ↦ inl ((string_eq.beq_iff domain expected).0 e)
  | inr e ↦ inr (ends_with-prefix (append "." expected) domain (rw e at h))
]

module _ (texts : Texts) (source : MailCodeSource) where
  some_domain :
      (domain : String) (items : List String)
      → any
          (λ expected. is_within domain expected)
          (filter (λ expected. not (is_empty expected)) (map (λ item. folded texts item) items))
        ≡ true
      → Has
          (λ item. (is_empty (folded texts item) ≡ false) × Within domain (folded texts item))
          items
  some_domain domain [] h = ground (arith, h)
  some_domain domain (item ∷ items) h = elim (Bool-cases (is_empty (folded texts item))) [
    | inl e ↦ there (some_domain domain items (rw e at h))
    | inr e ↦ elim (Bool-cases (is_within domain (folded texts item))) [
      | inl w ↦ here (e, is_within-Within domain (folded texts item) w)
      | inr w ↦ there (some_domain domain items (rw (e, w) at h))
    ]
  ]

  matches_domain-FromProvider :
      (address : String)
      → matches_domain texts source address ≡ true
      → FromProvider texts source address
  unfolding matches_domain
  matches_domain-FromProvider address h = elim (Option-cases (after_at (folded texts address))) [
    | inl e ↦ ground (arith, rw (e, matches_domain) at h)
    | inr (domain, e) ↦
        (domain, e, some_domain domain source.sender_domains (rw (e, matches_domain) at h))
  ]

  module _ (Real : Message → Type 0) where
    -- What a round may keep: nothing, or a code that was sent.
    abbrev pub Good : ℕ → String → Type 0
    Good since code = (is_empty code ≡ true) ⊎ Sent texts source Real since code

    Sent-since :
        (early late : ℕ) (code : String)
        → early ≤ late
        → Sent texts source Real late code
        → Sent texts source Real early code
    Sent-since early late code le s = record {
      message = s.message;
      real = s.real;
      of_provider = s.of_provider;
      carries = s.carries;
      filled = s.filled;
      instant = s.instant;
      stamped = s.stamped;
      in_time = omega (arith, le, s.in_time);
    }

    pub Good-since :
        (early late : ℕ) (code : String) → early ≤ late → Good late code → Good early code
    Good-since early late code le (inl e) = inl e
    Good-since early late code le (inr s) = inr (Sent-since early late code le s)

    abbrev pub Honest : ℕ → ℕ → Sight → Type 0
    Honest threshold cutoff skipped = Unit
    Honest threshold cutoff (fresh code) = Sent texts source Real threshold code
    Honest threshold cutoff (recent code) = Sent texts source Real cutoff code
    Honest threshold cutoff (old code) = Unit

    leb-true : (a b : ℕ) → leb a b ≡ true → a ≤ b
    leb-true a b h = ground (arith, h)

    pub sight-Honest :
        (threshold cutoff : ℕ) (m : Message)
        → Real m
        → Honest threshold cutoff (sight texts source threshold cutoff m)
    unfolding sight
    sight-Honest threshold cutoff m r = elim (Bool-cases (sender_matches texts source m)) [
      | inr e ↦ rw e tt
      | inl e ↦ elim (Option-cases (parse_timestamp texts m.received)) [
        | inl p ↦ rw (e, p) tt
        | inr (received, p) ↦ elim (Bool-cases (is_empty (extract_code texts source m))) [
          | inl f ↦ rw (e, p, f) tt
          | inr f ↦ rw (e, p, f) (aged received p f (matches_domain-FromProvider m.address e))
        ]
      ]
    ]
      where
        aged :
            (received : ℕ)
            → parse_timestamp texts m.received ≡ some received
            → is_empty (extract_code texts source m) ≡ false
            → FromProvider texts source m.address
            → Honest threshold cutoff
                (by_age texts source threshold cutoff (extract_code texts source m) received)
        aged received p f d =
            let sent : (since : ℕ)
                → leb since received ≡ true
                → Sent texts source Real since (extract_code texts source m) =
              λ since q. record {
                message = m;
                real = r;
                of_provider = d;
                carries = refl;
                filled = f;
                instant = received;
                stamped = p;
                in_time = leb-true since received q;
              } in
            branches (Honest threshold cutoff) (leb threshold received) _ _ (λ q. sent threshold q)
              (λ _.
                branches (Honest threshold cutoff) (leb cutoff received) _ _ (λ q. sent cutoff q)
                  (λ _. tt))
