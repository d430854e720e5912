-- ===== src/Worker/Ends/Expiry.antt =====
-- The expiry of the challenge that the worker waits on, in the shared inbox of cloud/src/jobs/inbox.py.
use get_receipt.Base.{
  if◌then◌else◌, ℕ, suc, ◌+◌, ◌≤◌, ◌<◌, String, Bool, true, false, Option, none, some, ◌≡◌, refl,
  sym, subst, ap, ◌∙◌, Result, ok, err, ◌==◌, nat_eq, string_eq, Bool-cases, Option-cases, inl, inr,
  arith, beq-true, or_raise,
}
use get_receipt.Jobs.Inbox.{
  Pending, Inbox, InboxError, Round, waiting, returned, safe_identifier, expires_of, object,
  new_pending, put_pending, register, get_pending, consume, wait_round, open_until, is_pending,
  store_object, not_pending, when_ok, is_open, set_entry,
}
use get_receipt.Worker.State.{Office, Common}
use get_receipt.Worker.Ends.Ticking.{Ticking}

-- What stands under an identifier expires by `b`.
abbrev pub By : String → ℕ → Inbox → Type 0
By k b inbox = (i : ℕ) → inbox.table k ≡ some i → expires_of (inbox.objects i) ≤ b

module _ {O : Type 0} (office : Office O) (ticking : Ticking office) where
  pub others-By :
      (o : O) (c : Common) (k : String) (b : ℕ)
      → By k b c.inbox
      → By k b ((office.others o).0 c).inbox
  others-By o c k b h i e = elim (ticking.entries o c k) [
    | inl same ↦ omega (arith, ticking.expiries o c i, h i (sym same ∙ e))
    | inr gone ↦ absurd (clash gone e)
  ]
    where
      clash : {x : Option ℕ} → x ≡ none → x ≡ some i → ⊥
      clash p q = cc (p, q)

consume-expires :
    (deadline now later : ℕ) (p : Pending) → (consume deadline now later p).1.expires ≡ p.expires
unfolding consume
consume-expires deadline now later p = ground arith

consume_waiting :
    (deadline now later : ℕ) (p : Pending)
    → (consume deadline now later p).0 ≡ waiting
    → now < deadline
unfolding consume
consume_waiting deadline now later p h = ground (arith, h)

-- An object that is changed keeps its expiry.
store_object-By :
    (i : ℕ) (p q : Pending) (inbox : Inbox) (k : String) (b : ℕ)
    → inbox.objects i ≡ some p
    → q.expires ≡ p.expires
    → By k b inbox
    → By k b (store_object i q inbox)
store_object-By i p q inbox k b f same h j e = elim (Bool-cases (j == i)) [
  | inl t ↦ rw t (
      omega (
        arith,
        same,
        ap expires_of f,
        ap (λ x. expires_of (inbox.objects x)) ((nat_eq.beq_iff j i).0 t),
        h j e,
      ))
  | inr t ↦ rw t (h j e)
]

module _ (deadline now later i : ℕ) (inbox : Inbox) where
  missed : inbox.objects i ≡ none → wait_round deadline now later i inbox ≡ (returned none, inbox)
  unfolding wait_round
  missed f = ground (arith, f)

  met :
      (p : Pending)
      → inbox.objects i ≡ some p
      → wait_round deadline now later i inbox
        ≡ ((consume deadline now later p).0, store_object i (consume deadline now later p).1 inbox)
  unfolding wait_round
  met p f = ground (arith, f)

  pub wait_round-By :
      (k : String) (b : ℕ) → By k b inbox → By k b (wait_round deadline now later i inbox).1
  wait_round-By k b h = elim (Option-cases (inbox.objects i)) [
    | inl f ↦ subst (λ (o : Round × Inbox). By k b o.1) (sym (missed f)) h
    | inr (p, f) ↦
        subst (λ (o : Round × Inbox). By k b o.1) (sym (met p f))
          (store_object-By i p (consume deadline now later p).1 inbox k b f
            (consume-expires deadline now later p) h)
  ]

  pub wait_round_waiting : (wait_round deadline now later i inbox).0 ≡ waiting → now < deadline
  wait_round_waiting h = elim (Option-cases (inbox.objects i)) [
    | inl f ↦ absurd (ended (sym (ap (λ (o : Round × Inbox). o.0) (missed f)) ∙ h))
    | inr (p, f) ↦
        consume_waiting deadline now later p (sym (ap (λ (o : Round × Inbox). o.0) (met p f)) ∙ h)
  ]
    where
      ended : returned none ≡ waiting → ⊥
      ended e = cc e

module _ (challenge_id k : String) (safe : safe_identifier challenge_id ≡ ok k) where
  pub is_pending-By :
      (now b : ℕ) (inbox : Inbox)
      → By k b inbox
      → is_pending now challenge_id inbox ≡ ok true
      → now < b
  unfolding is_pending
  is_pending-By now b inbox h e = by_entry (inbox.table k) refl (rw safe at e)
    where
      by_entry :
          (entry : Option ℕ)
          → inbox.table k ≡ entry
          → ◌≡◌ {A = Result InboxError Bool} (ok (open_until now (object inbox entry))) (ok true)
          → now < b
      by_entry none t e = cc e
      by_entry (some i) t e = omega (arith, h i t, open_before (inbox.objects i) (unwrap e))
        where
          unwrap : {x : Bool} → ◌≡◌ {A = Result InboxError Bool} (ok x) (ok true) → x ≡ true
          unwrap e = cc e

          open_before : (o : Option Pending) → open_until now o ≡ true → now < expires_of o
          open_before none e = cc e
          open_before (some p) e = ground (arith, e)

  pub get_pending-By :
      (b : ℕ) (inbox : Inbox) (i : ℕ)
      → By k b inbox
      → get_pending challenge_id inbox ≡ ok i
      → expires_of (inbox.objects i) ≤ b
  unfolding get_pending
  get_pending-By b inbox i h e = h i (found (inbox.table k) (rw safe at e))
    where
      found : (o : Option ℕ) → or_raise o not_pending ≡ ok i → o ≡ some i
      found none e = cc e
      found (some j) e = cc e

-- What `register` has put there.
module _ (now ttl : ℕ) (challenge_id owner_id : String) where
  made :
      (p : Pending)
      → new_pending now challenge_id owner_id ttl ≡ ok p
      → (safe_identifier challenge_id ≡ ok p.challenge_id) × (p.expires ≡ now + ttl)
  unfolding new_pending
  made p e = (ground (arith, e), ground (arith, e))

  put :
      (p : Pending) (inbox left : Inbox) (u : Unit {0})
      → put_pending p inbox ≡ (ok u, left)
      → By p.challenge_id p.expires left
  unfolding put_pending
  put p inbox left u e =
      subst (By p.challenge_id p.expires)
        (stored (is_open (object inbox (inbox.table p.challenge_id))) _ e) fresh_By
    where
      stored :
          (b : Bool) (t : Inbox)
          → ◌≡◌ {A = Result InboxError (Unit {0}) × Inbox}
              (if b then (err not_pending, inbox) else (ok tt, t))
              (ok u, left)
          → t ≡ left
      stored true t e = cc e
      stored false t e = cc e

      fresh_By : By p.challenge_id p.expires (
          set_entry p.challenge_id
            (some inbox.allocated)
            (store_object inbox.allocated p (record inbox { allocated = suc inbox.allocated })))
      fresh_By i e =
          let at_id = rw (beq-true p.challenge_id p.challenge_id refl) at e in
          let same : inbox.allocated ≡ i = cc at_id in
          rw (beq-true i inbox.allocated (sym same)) (omega arith)

  pub register-By :
      (inbox left : Inbox) (u : Unit {0})
      → register now challenge_id owner_id ttl inbox ≡ (ok u, left)
      → (k : String) × (safe_identifier challenge_id ≡ ok k) × By k (now + ttl) left
  unfolding register
  register-By inbox left u e = by_case (new_pending now challenge_id owner_id ttl) refl e
    where
      by_case :
          (r : Result InboxError Pending)
          → new_pending now challenge_id owner_id ttl ≡ r
          → when_ok r put_pending inbox ≡ (ok u, left)
          → (k : String) × (safe_identifier challenge_id ≡ ok k) × By k (now + ttl) left
      by_case (ok p) f e =
          let (safe, time) = made p f in
          (p.challenge_id, safe, subst (λ b. By p.challenge_id b left) time (put p inbox left u e))
      by_case (err x) f e = cc e
