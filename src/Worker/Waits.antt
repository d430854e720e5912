-- ===== src/Worker/Waits.antt =====
-- `_wait_for_code` and `_wait_for_interactive` of cloud/src/workers/runner.py. A wait makes at most a
-- number of rounds here, which is an argument; a wait that is longer ends in `out_of_rounds`.
use get_receipt.Base.{
  ℕ, zero, suc, ◌+◌, String, Bool, true, false, ◌&&◌, ◌||◌, Option, none, some, List, [], ◌∷◌, ok,
  err, ◌==◌, nat_eq, string_eq, if◌then◌else◌, leb, contains,
}
use get_receipt.Base.Exec.{pure, lift, ◌>>=◌, ◌>>◌}
use get_receipt.Base.Text.{is_empty}
use get_receipt.Jobs.Payload.{Fields, field, text, end}
use get_receipt.Jobs.Model.{Job, state_eq, cancelled}
use get_receipt.Jobs.Challenge.{Challenge, validate_challenge}
use get_receipt.Jobs.Challenge.Enums.{type_value}
use get_receipt.Jobs.Store.Challenges.{add_challenge}
use get_receipt.Jobs.Inbox.{
  Method, Round, waiting, returned, register, is_pending, get_pending, wait_round, forget, discard,
  expires_of,
}
use get_receipt.Acquisition.Report.{AcquisitionResult}
use get_receipt.Acquisition.Ports.{or_text}
use get_receipt.Worker.Contract.{challenge_contract}
use get_receipt.Worker.State.{
  Office, Settings, Target, Work, out_of_rounds, from_store, or_unexpected, let_others, on_store,
  clock, reading, uuid, is_stopped,
}
use get_receipt.Worker.Swaps.{error_fields, to_running, to_waiting, to_failed, read_job, swap}

abbrev pub message_of : AcquisitionResult → String → String
message_of r fallback = elim r.challenge [ none ↦ fallback | some c ↦ or_text c.message fallback ]

-- `_VIEWER_ALLOWED_HOSTS`.
abbrev pub viewer_allowed_hosts : String → List String
viewer_allowed_hosts service_id =
    if service_id == "epos"
    then "www.eposcard.co.jp" ∷ []
    else if service_id == "commufa"
    then "mypage.commufa.jp" ∷ []
    else if service_id == "mobile" || service_id == "webbilling"
    then "webbilling.ntt-finance.co.jp" ∷ "id.smt.docomo.ne.jp" ∷ "cfg.smt.docomo.ne.jp" ∷ []
    else if service_id == "tokuten"
    then "outlook.live.com" ∷ "login.live.com" ∷ "account.live.com" ∷ "login.microsoftonline.com"
      ∷ []
    else []

abbrev is_https_port : Option ℕ → Bool
is_https_port none = true
is_https_port (some p) = p == 443

-- `_assert_official_viewer_target`. `urlsplit` gives the scheme and the host name in lower case.
unfoldable pub is_official : String → Target → Bool
is_official service_id target =
    target.scheme == "https"
    && is_empty target.username
    && is_empty target.password
    && is_https_port target.port
    && contains (viewer_allowed_hosts service_id) target.hostname

abbrev pub lesser : ℕ → ℕ → ℕ
lesser a b = if leb a b then a else b

abbrev pub expiry : Option ℕ → ℕ
expiry none = 0
expiry (some t) = t

abbrev pub challenge_payload : Challenge → String → Fields
challenge_payload challenge service_id = field "challenge_id" (text challenge.id) (
    field "challenge_type" (text (type_value challenge.type))
      (field "service_id" (text service_id) end))

module _ {O : Type 0} (office : Office O) (settings : Settings) where
  -- A method of the inbox, after the other threads.
  unfoldable pub on_inbox : {A : Type 0} → Method A → Work O A
  on_inbox m s =
      let t = let_others office s in
      let (r, inbox) = m t.common.inbox in
      (or_unexpected r, record t { common = record t.common { inbox = inbox } })

  unfoldable pub new_challenge : Job → String → String → String → Work O Challenge
  new_challenge job service_id kind message = do
    now ← clock office
    id ← uuid office
    created ← clock office
    let (type, schema) = challenge_contract service_id kind
    lift (
        from_store (
          validate_challenge (record {
            id = id;
            job_id = job.id;
            type = type;
            message = message;
            input_schema = schema;
            metadata = field "service_id" (text service_id) end;
            created_at = created;
            expires_at = some (now + settings.challenge_ttl);
          })))

  -- One pass of the loop in `wait_and_consume` for the object `i`, whose deadline is set.
  unfoldable pub wait_pass : ℕ → ℕ → Work O Round
  wait_pass deadline i = do
    now ← reading office
    later ← reading office
    (λ s.
        let t = let_others office s in
        let (r, inbox) = wait_round deadline now later i t.common.inbox in
        (ok r, record t { common = record t.common { inbox = inbox } }))

  -- What follows a pass: the next one, another wait, or the response.
  unfoldable pub after_pass :
      (Option (ℕ × ℕ) → Work O (Option String)) → String → ℕ × ℕ → Round → Work O (Option String)
  after_pass again challenge_id inside waiting = again (some inside)
  after_pass again challenge_id inside (returned none) = again none
  after_pass again challenge_id inside (returned (some response)) = do
    on_inbox (λ inbox. (ok tt, forget challenge_id inbox))
    pure (some response)

  -- The loop of `_wait_for_code`: `inside` is the wait of `wait_and_consume` that is under way, with its
  -- deadline and its object.
  unfoldable pub await_response : ℕ → String → Option (ℕ × ℕ) → Work O (Option String)
  await_response zero challenge_id inside = lift (err out_of_rounds)
  await_response (suc rounds) challenge_id (some (deadline, i)) = do
    round ← wait_pass deadline i
    after_pass (await_response rounds challenge_id) challenge_id (deadline, i) round
  await_response (suc rounds) challenge_id none = do
    stopped ← is_stopped office
    elim stopped [
      | true ↦ pure none
      | false ↦ (do
        now ← reading office
        pending ← on_inbox (λ inbox. (is_pending now challenge_id inbox, inbox))
        elim pending [
          | false ↦ pure none
          | true ↦ (do
            i ← on_inbox (λ inbox. (get_pending challenge_id inbox, inbox))
            start ← reading office
            expires ← on_inbox (λ inbox. (ok (expires_of (inbox.objects i)), inbox))
            await_response rounds challenge_id
                (some (lesser expires (start + lesser 1_000_000 settings.challenge_ttl), i)))
        ])
    ]

  -- What `_wait_for_code` does when no response has come.
  unfoldable pub code_missing : String → String → Work O (Option String)
  code_missing job_id challenge_id = do
    on_inbox (discard challenge_id)
    stopped ← is_stopped office
    elim stopped [
      | true ↦ pure none
      | false ↦ (do
        latest ← read_job office settings job_id
        elim (latest.state == cancelled) [
          | true ↦ pure none
          | false ↦ (do
            swap office settings latest
                (to_failed (error_fields "CHALLENGE_EXPIRED" "追加認証の入力期限が切れたため、この試行を終了しました。" true))
                "challenge_expired" (field "challenge_id" (text challenge_id) end)
            pure none)
        ])
    ]

  unfoldable pub code_received : String → String → String → String → Work O (Option String)
  code_received job_id service_id challenge_id response = do
    latest ← read_job office settings job_id
    swap office settings latest (to_running service_id) "challenge_response_consumed"
        (field "challenge_id" (text challenge_id) end)
    pure (some response)

  -- `_wait_for_code`.
  unfoldable pub wait_for_code : ℕ → String → String → AcquisitionResult → Work O (Option String)
  wait_for_code rounds job_id service_id result = do
    current ← read_job office settings job_id
    challenge ←
        new_challenge current service_id "verification_code"
          (message_of result "iPhoneで確認コードを入力してください。")
    on_store office (add_challenge challenge settings.owner_id)
    now ← reading office
    on_inbox (register now challenge.id settings.owner_id settings.challenge_ttl)
    held ←
        swap office settings current (to_waiting service_id) "challenge_waiting"
          (challenge_payload challenge service_id)
    response ← await_response rounds challenge.id none
    elim response [
      | none ↦ code_missing held.id challenge.id
      | some value ↦ code_received held.id service_id challenge.id value
    ]
