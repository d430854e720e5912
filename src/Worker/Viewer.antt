-- ===== src/Worker/Viewer.antt =====
-- The owner's calls on the browser of cloud/src/workers/runner.py, each under the viewer's lock. `Hands`
-- has the browser's own methods; what they or the page's address raise is `unexpected`.
pub mod Permitted
use Prim.Native.String.{count}
use get_receipt.Base.{
  ℕ, ◌+◌, String, Bool, true, false, not, ◌&&◌, ◌||◌, Option, none, some, List, [], ◌∷◌, map,
  Result, ok, err, ◌==◌, nat_eq, string_eq, if◌then◌else◌, leb, contains, list_beq,
}
use get_receipt.Base.Text.{codes, strip, is_empty, between}
use get_receipt.Base.Integers.{ℤ, pos, negsuc}
use get_receipt.Base.Exec.{Exec, lift, ◌>>=◌, ◌>>◌}
use get_receipt.Acquisition.Ports.{Raised, Call as Outside}
use get_receipt.Worker.State.{Office, Settings, Worker, Target, let_others}
use get_receipt.Worker.Waits.{is_official}

pub record Hands (O : Type 0) : Type 0 where
  pub screenshot : Outside O (List ℕ)
  pub click : ℕ → ℕ → Outside O (Unit {0})
  pub insert_text : String → Outside O (Unit {0})
  pub press_key : String → Outside O (Unit {0})

-- `ViewerUnavailableError`, `ValueError` and what the browser raises.
pub data ViewerFault : Type 0 where
  unavailable invalid_input browser_raised : ViewerFault

abbrev pub View : Type 0 → Type 0 → Type 0
View O A = Exec (Worker O) ViewerFault A

abbrev pub or_browser_raised : {A : Type 0} → Result Raised A → Result ViewerFault A
or_browser_raised (ok a) = ok a
or_browser_raised (err e) = err browser_raised

-- `lower` of one character, as far as a word of ASCII letters can show it.
abbrev pub lower_char : ℕ → ℕ
lower_char c = if between b'A' b'Z' c then c + 32 else if c == 0x212A then b'k' else c

-- `str(action or "").strip().lower() == word`.
unfoldable pub is_action : String → String → Bool
is_action action word = list_beq (map lower_char (codes (strip action))) (codes word)

abbrev pub viewer_keys : List String
viewer_keys = "Enter" ∷ "Tab" ∷ "Escape" ∷ "Backspace" ∷ []

-- A coordinate from 0 to 4096.
abbrev pub coordinate : Option ℤ → Option ℕ
coordinate (some (pos n)) = if leb n 4096 then some n else none
coordinate _ = none

abbrev pub png_mark : List ℕ
png_mark = 0x89 ∷ b'P' ∷ b'N' ∷ b'G' ∷ 13 ∷ 10 ∷ 0x1A ∷ 10 ∷ []

-- `bytes.startswith`.
abbrev pub bytes_begin : List ℕ → List ℕ → Bool
bytes_begin [] bs = true
bytes_begin (m ∷ ms) [] = false
bytes_begin (m ∷ ms) (b ∷ bs) = m == b && bytes_begin ms bs

abbrev pub is_active : Option String → String → Bool
is_active none job_id = false
is_active (some active) job_id = not (is_empty active) && active == job_id

-- The first test of `_require_active_browser`.
abbrev pub is_viewed : {O : Type 0} → String → String → Worker O → Bool
is_viewed job_id challenge_id s =
    is_active s.browser_job_id job_id
    && (not (is_empty s.interactive_challenge_id)
        && (s.interactive_challenge_id == challenge_id
            && (not (is_empty s.interactive_service_id) && not (is_empty s.interactive_target_id))))

-- The tests on the page.
abbrev pub is_same_page : {O : Type 0} → Target → Worker O → Bool
is_same_page target s =
    target.target_id == s.interactive_target_id && is_official s.interactive_service_id target

module _ {O : Type 0} (office : Office O) (hands : Hands O) where
  -- A method of the browser.
  unfoldable pub by_hand : {A : Type 0} → Outside O A → View O A
  by_hand f s = let (r, o) = f s.outer in (or_browser_raised r, record s { outer = o })

  abbrev pub page_checked : Result Raised Target → Worker O → Result ViewerFault (Unit {0})
  page_checked (err e) s = err browser_raised
  page_checked (ok target) s = if is_same_page target s then ok tt else err unavailable

  -- `_require_active_browser`.
  unfoldable pub require_active_browser : String → String → View O (Unit {0})
  require_active_browser job_id challenge_id s =
      if is_viewed job_id challenge_id s
      then (let (r, o) = office.page_target s.outer in (page_checked r s, record s { outer = o }))
      else (err unavailable, s)

  abbrev pub click_at : Option ℕ → Option ℕ → View O (Unit {0})
  click_at (some x) (some y) = by_hand (hands.click x y)
  click_at _ _ = lift (err invalid_input)

  -- The branches of `send_viewer_input`.
  unfoldable pub act : String → Option ℤ → Option ℤ → String → String → View O (Unit {0})
  act action x y text key =
      if is_action action "click"
      then click_at (coordinate x) (coordinate y)
      else if is_action action "text"
      then (if not (is_empty text) && leb (count text) 512
          then by_hand (hands.insert_text text)
          else lift (err invalid_input))
      else if is_action action "key"
      then (if contains viewer_keys key
          then by_hand (hands.press_key key)
          else lift (err invalid_input))
      else lift (err invalid_input)

  -- `send_viewer_input`.
  unfoldable pub send_viewer_input :
      String → String → String → Option ℤ → Option ℤ → String → String → View O (Unit {0})
  send_viewer_input job_id challenge_id action x y text key =
      require_active_browser job_id challenge_id >> act action x y text key

  -- `capture_viewer_frame`.
  unfoldable pub capture_viewer_frame : String → String → View O (List ℕ)
  capture_viewer_frame job_id challenge_id = do
    require_active_browser job_id challenge_id
    frame ← by_hand hands.screenshot
    lift (if bytes_begin png_mark frame then ok frame else err unavailable)

  abbrev pub set_continued : Worker O → Worker O
  set_continued s = record s { common = record s.common { continued = true } }

  -- `continue_interactive`.
  unfoldable pub continue_interactive : String → String → View O (Unit {0})
  continue_interactive job_id challenge_id = do
    require_active_browser job_id challenge_id
    (λ s. (ok tt, set_continued s))

  -- `notify_job_cancelled`.
  unfoldable pub notify_job_cancelled : String → Worker O → Worker O
  notify_job_cancelled job_id s = if is_active s.browser_job_id job_id then set_continued s else s
