-- ===== src/Worker/Interactive.antt =====
-- `_wait_for_interactive` of cloud/src/workers/runner.py, and the viewer's calls on the browser.
use get_receipt.Base.{
  ℕ, zero, suc, String, Bool, true, false, not, ◌&&◌, ◌||◌, Option, none, some, Result, ok, err,
  ◌==◌, string_eq, if◌then◌else◌, ltb,
}
use get_receipt.Base.Exec.{pure, lift, ◌>>=◌, ◌>>◌}
use get_receipt.Base.Text.{is_empty}
use get_receipt.Jobs.Payload.{field, text, end}
use get_receipt.Jobs.Model.{state_eq, cancelled}
use get_receipt.Jobs.Challenge.{Challenge}
use get_receipt.Jobs.Store.Challenges.{add_challenge}
use get_receipt.Acquisition.Report.{AcquisitionResult}
use get_receipt.Acquisition.Ports.{Raised}
use get_receipt.Worker.State.{
  Office, Settings, Target, Work, out_of_rounds, let_others, on_store, clock, is_stopped,
}
use get_receipt.Worker.Swaps.{
  error_fields, to_running, to_waiting, to_failed, read_job, swap, set_intervention,
}
use get_receipt.Worker.Waits.{is_official, new_challenge, message_of, challenge_payload, expiry}

-- The page's identifier, when the page may be shown.
unfoldable pub viewer_target : String → Result Raised Target → Option String
unfolding is_official
viewer_target service_id (err e) = none
viewer_target service_id (ok target) =
    if is_official service_id target && not (is_empty target.target_id)
    then some target.target_id
    else none

module _ {O : Type 0} (office : Office O) (settings : Settings) where
  -- The check of the browser before the wait: the code of a viewer's error, or none.
  unfoldable pub check_viewer : String → Work O (Option String)
  check_viewer service_id s = elim s.browser_job_id [
    | none ↦ (ok (some "VIEWER_UNAVAILABLE"), s)
    | some job_id ↦
        let (r, o) = office.page_target s.outer in
        elim (viewer_target service_id r) [
          | none ↦ (ok (some "VIEWER_ORIGIN_NOT_ALLOWED"), record s { outer = o })
          | some target_id ↦ (
            ok none,
            record s {
              outer = o;
              interactive_service_id = service_id;
              interactive_target_id = target_id;
            },
          )
        ]
  ]

  abbrev viewer_message : String → String
  viewer_message code =
      if code == "VIEWER_UNAVAILABLE"
      then "同じGoogle Chromeの追加認証画面を確認できません。"
      else "公式サイト以外の画面はiPhoneから操作できないため、安全に停止しました。"

  -- `self._interactive_challenge_id = ...` and `self._interactive_continue.clear()`.
  unfoldable pub open_viewer : String → Work O (Unit {0})
  open_viewer challenge_id s =
      let t = let_others office s in
      (
        ok tt,
        record t {
          interactive_challenge_id = challenge_id;
          common = record t.common { continued = false };
        },
      )

  unfoldable pub close_viewer : Work O (Unit {0})
  close_viewer s =
      let t = let_others office s in
      (
        ok tt,
        record t {
          interactive_challenge_id = "";
          interactive_service_id = "";
          interactive_target_id = "";
          common = record t.common { continued = false };
        },
      )

  -- `self._interactive_continue.wait(timeout=0.5)`.
  unfoldable pub is_continued : Work O Bool
  is_continued s = let t = let_others office s in (ok t.common.continued, t)

  -- After the loop.
  unfoldable pub interactive_expired : String → String → Work O Bool
  interactive_expired job_id challenge_id = do
    latest ← read_job office settings job_id
    stopped ← is_stopped office
    elim (stopped || latest.state == cancelled) [
      | true ↦ pure false
      | false ↦ (do
        swap office settings latest
            (to_failed
              (error_fields "INTERACTIVE_CHALLENGE_EXPIRED" "追加認証画面の操作期限が切れたため、この試行を終了しました。" true))
            "interactive_challenge_expired" (field "challenge_id" (text challenge_id) end)
        pure false)
    ]

  unfoldable pub interactive_done : String → String → String → Work O Bool
  interactive_done job_id service_id challenge_id = do
    latest ← read_job office settings job_id
    elim (latest.state == cancelled) [
      | true ↦ pure false
      | false ↦ (do
        swap office settings latest (to_running service_id) "interactive_challenge_completed"
            (field "challenge_id" (text challenge_id) end)
        close_viewer
        pure true)
    ]

  unfoldable pub await_owner : ℕ → String → String → Challenge → Work O Bool
  await_owner zero job_id service_id challenge = lift (err out_of_rounds)
  await_owner (suc rounds) job_id service_id challenge = do
    stopped ← is_stopped office
    now ← clock office
    elim (stopped || not (ltb now (expiry challenge.expires_at))) [
      | true ↦ interactive_expired job_id challenge.id
      | false ↦ (do
        continued ← is_continued
        elim continued [
          | true ↦ interactive_done job_id service_id challenge.id
          | false ↦ (do
            latest ← read_job office settings job_id
            elim (latest.state == cancelled) [
              | true ↦ pure false
              | false ↦ await_owner rounds job_id service_id challenge
            ])
        ])
    ]

  -- `_wait_for_interactive`.
  unfoldable pub wait_for_interactive :
      ℕ → String → String → String → AcquisitionResult → Work O Bool
  wait_for_interactive rounds job_id service_id kind result = do
    current ← read_job office settings job_id
    challenge ←
        new_challenge office settings current service_id kind
          (message_of result "iPhoneから同じGoogle Chromeの追加認証を完了してください。")
    viewer_error ← check_viewer service_id
    elim viewer_error [
      | some code ↦ (do
        set_intervention office settings job_id code (viewer_message code)
        pure false)
      | none ↦ (do
        on_store office (add_challenge challenge settings.owner_id)
        open_viewer challenge.id
        held ←
            swap office settings current (to_waiting service_id) "interactive_challenge_waiting"
              (challenge_payload challenge service_id)
        await_owner rounds held.id service_id challenge)
    ]
