-- ===== src/Jobs/Inbox/Single.antt =====
-- A response is accepted once, from its owner and in time, and consumed once.
use Prim.Native.String.{len}
use get_receipt.Base.{
  ap, ℕ, ◌<◌, ◌≤◌, String, ◌≡◌, refl, true, false, none, some, ◌==◌, nat_eq, string_eq, ok, err,
  arith, eq_iff, inl, inr, Bool-cases, Option-cases, beq-true, beq-false, subst, Result-cases,
}
use get_receipt.Jobs.Inbox.{
  Pending, Inbox, answer, consume, close, returned, register, submit, wait_round, forget, discard,
  put_pending, get_pending, safe_identifier, new_pending, object, on_object, not_pending, is_open,
}

-- An accepted answer came from the owner, before the expiry, to an object that had no answer and
-- was open, and the object then holds it.
pub answer_accepted :
    (now : ℕ) (owner_id response : String) (p q : Pending)
    → answer now owner_id response p ≡ (ok tt, q)
    → (p.owner_id ≡ owner_id)
      × (now < p.expires)
      × (p.answered ≡ false)
      × (p.closed ≡ false)
      × (len response ≤ 256)
      × (q ≡ record p { response = some response; answered = true })
unfolding answer
answer_accepted now owner_id response p q h = ground (arith, eq_iff p.owner_id owner_id)

-- The next round of the waiting thread then returns that response, and leaves no copy of it.
pub answer-consume :
    (now deadline t u : ℕ) (owner_id response : String) (p q : Pending)
    → answer now owner_id response p ≡ (ok tt, q)
    → consume deadline t u q
      ≡ (returned (some response), record q { response = none; closed = true })
unfolding answer consume
answer-consume now deadline t u owner_id response p q h = ground arith

-- The response of the object under a reference has been consumed or thrown away.
abbrev pub Spent : ℕ → Inbox → Type 0
Spent i inbox =
    (i < inbox.allocated)
    × ((p : Pending) × (inbox.objects i ≡ some p) × (p.closed ≡ true) × (p.response ≡ none))

-- Any thread's next step: a call of the owner's request, a round of a waiting thread, or its end.
pub data Step (inbox : Inbox) : Inbox → Type 0 where
  registered :
      (now : ℕ) (challenge_id owner_id : String) (ttl : ℕ)
      → Step inbox (register now challenge_id owner_id ttl inbox).1
  submitted :
      (now : ℕ) (challenge_id owner_id response : String)
      → Step inbox (submit now challenge_id owner_id response inbox).1
  waited : (deadline now later i : ℕ) → Step inbox (wait_round deadline now later i inbox).1
  forgotten : (challenge_id : String) → Step inbox (forget challenge_id inbox)
  discarded : (challenge_id : String) → Step inbox (discard challenge_id inbox).1

pub data Steps (inbox : Inbox) : Inbox → Type 0 where
  here : Steps inbox inbox
  next : {u t : Inbox} → Steps inbox u → Step u t → Steps inbox t

answer-closed :
    (now : ℕ) (owner_id response : String) (p : Pending)
    → p.closed ≡ true
    → p.response ≡ none
    → ((answer now owner_id response p).1.closed ≡ true)
      × ((answer now owner_id response p).1.response ≡ none)
unfolding answer
answer-closed now owner_id response p c r = ground arith

consume-closed :
    (deadline now later : ℕ) (p : Pending)
    → p.closed ≡ true
    → p.response ≡ none
    → ((consume deadline now later p).0 ≡ returned none)
      × ((consume deadline now later p).1.closed ≡ true)
      × ((consume deadline now later p).1.response ≡ none)
unfolding consume
consume-closed deadline now later p c r = ground arith

module _ {A : Type 0} (change : Pending → A × Pending) (missing : A) where
  on_object-Spent :
      (i k : ℕ) (inbox : Inbox)
      → ((p : Pending)
          → p.closed ≡ true
          → p.response ≡ none
          → ((change p).1.closed ≡ true) × ((change p).1.response ≡ none))
      → Spent i inbox
      → Spent i (on_object change missing k inbox).1
  on_object-Spent i k inbox keep (lt, (p, at, c, r)) = elim (Bool-cases (i == k)) [
    | inl e ↦
        let same : i ≡ k = (nat_eq.beq_iff i k).0 e in
        subst (λ n. Spent i (on_object change missing n inbox).1) same
          (rw (at, on_object)
            (lt, ((change p).1, rw (beq-true i i refl) refl, (keep p c r).0, (keep p c r).1)))
    | inr e ↦ elim (Option-cases (inbox.objects k)) [
      | inl gone ↦ rw (gone, on_object) (lt, (p, at, c, r))
      | inr (q, found) ↦ rw (found, on_object) (lt, (p, rw e at, c, r))
    ]
  ]

put_pending-Spent :
    (i : ℕ) (q : Pending) (inbox : Inbox) → Spent i inbox → Spent i (put_pending q inbox).1
unfolding put_pending
put_pending-Spent i q inbox (lt, (p, at, c, r)) =
    elim (Bool-cases (is_open (object inbox (inbox.table q.challenge_id)))) [
      | inl e ↦ rw e (lt, (p, at, c, r))
      | inr e ↦ rw e (omega arith, (p, rw (beq-false i inbox.allocated (omega arith)) at, c, r))
    ]

-- Once a response is consumed or thrown away, no step of any thread brings it back.
Step-Spent : {inbox t : Inbox} (i : ℕ) → Step inbox t → Spent i inbox → Spent i t
unfolding register submit wait_round forget discard
Step-Spent {inbox} i (registered now challenge_id owner_id ttl) h =
    elim (Result-cases (new_pending now challenge_id owner_id ttl)) [
      | inl (q, e) ↦ rw (e, register) (put_pending-Spent i q inbox h)
      | inr (x, e) ↦ rw (e, register) h
    ]
Step-Spent {inbox} i (submitted now challenge_id owner_id response) h =
    elim (Result-cases (get_pending challenge_id inbox)) [
      | inl (k, e) ↦
          rw (e, submit)
            (on_object-Spent (answer now owner_id response) (err not_pending) i k inbox
              (answer-closed now owner_id response) h)
      | inr (x, e) ↦ rw (e, submit) h
    ]
Step-Spent {inbox} i (waited deadline now later k) h =
    on_object-Spent (consume deadline now later) (returned none) i k inbox
      (λ p c r. let (out, closed, gone) = consume-closed deadline now later p c r in (closed, gone))
      h
Step-Spent i (forgotten challenge_id) h = h
Step-Spent {inbox} i (discarded challenge_id) h =
    elim (Result-cases (safe_identifier challenge_id)) [
      | inr (x, e) ↦ rw (e, discard) h
      | inl (safe, e) ↦ elim (Option-cases (inbox.table safe)) [
        | inl gone ↦ rw (e, discard, gone) h
        | inr (k, found) ↦
            rw (e, discard, found)
              (on_object-Spent close tt i k (forget safe inbox) (λ p c r. (refl, refl)) h)
      ]
    ]

Steps-Spent : {inbox t : Inbox} (i : ℕ) → Steps inbox t → Spent i inbox → Spent i t
Steps-Spent i here h = h
Steps-Spent i (next r s) h = Step-Spent i s (Steps-Spent i r h)

consume-some :
    (deadline now later : ℕ) (response : String) (p : Pending)
    → (consume deadline now later p).0 ≡ returned (some response)
    → ((consume deadline now later p).1.closed ≡ true)
      × ((consume deadline now later p).1.response ≡ none)
unfolding consume
consume-some deadline now later response p h = ground arith

-- The object behind a reference after a round that has returned a response.
wait_round-Spent :
    (deadline now later i : ℕ) (response : String) (inbox t : Inbox)
    → i < inbox.allocated
    → wait_round deadline now later i inbox ≡ (returned (some response), t)
    → Spent i t
unfolding wait_round
wait_round-Spent deadline now later i response inbox t lt h =
    elim (Option-cases (inbox.objects i)) [
      | inl gone ↦ let h' = (rw (gone, on_object) at h) in cc
      | inr (p, found) ↦
          let h' = (rw (found, on_object) at h) in
          let (c, r) = consume-some deadline now later response p (ap (λ x. x.0) h') in
          subst (Spent i) (ap (λ x. x.1) h')
            (lt, ((consume deadline now later p).1, rw (beq-true i i refl) refl, c, r))
    ]

-- Once a waiting thread has returned a response of an allocated object, no later round on the same object returns one,
-- whatever any thread does in between.
pub consumed_once :
    (deadline now later i : ℕ) (response : String) (inbox t u : Inbox) (deadline' now' later' : ℕ)
    → i < inbox.allocated
    → wait_round deadline now later i inbox ≡ (returned (some response), t)
    → Steps t u
    → (wait_round deadline' now' later' i u).0 ≡ returned none
unfolding wait_round
consumed_once deadline now later i response inbox t u deadline' now' later' lt h steps =
    let (lt', (p, at, c, r)) =
      Steps-Spent i steps (wait_round-Spent deadline now later i response inbox t lt h) in
    rw (at, on_object) (consume-closed deadline' now' later' p c r).0
