-- ===== src/MailCodes/Tests.antt =====
-- The wait for a code at a concrete mailbox.
use get_receipt.Base.{
  ℕ, ◌+◌, ◌-◌, ◌*◌, ◌≤◌, ◌<◌, String, true, false, some, none, ok, err, [], ◌∷◌, ◌≡◌, ◌≢◌, ◌⊎◌,
  refl, arith,
}
use get_receipt.MailCodes.{Texts, Message, MailCodeSource}
use get_receipt.MailCodes.Search.{Mailbox, Reader, answered, messages, out_of_rounds}
use get_receipt.MailCodes.Search.Real.{Delivers}
use get_receipt.MailCodes.Reader.{wait_for_code, clock_skew, fallback_max_age}
use get_receipt.MailCodes.Sent.{Sent}
use get_receipt.MailCodes.Timely.{Forward}
use get_receipt.MailCodes.Trusted.{wait_for_code-Sent}
use get_receipt.MailCodes.Ends.{wait_for_code_enough}

abbrev source : MailCodeSource
source = record {
  search_terms = "from:news-ml@commufa.jp" ∷ [];
  sender_domains = "commufa.jp" ∷ [];
  subject_hint = "ID";
  code_patterns = "([0-9]{6})" ∷ [];
}

abbrev mail : Message
mail = record {
  id = "m1";
  subject = "ID を確認してください";
  address = "news@mail.commufa.jp";
  received = "2026-05-01T00:00:00Z";
  content = "123456";
}

abbrev python : Texts
python = record {
  casefold = λ text. text;
  fromisoformat = λ text. some 5000000100;
  strip_tags = λ text. text;
  search = λ pattern text. some text;
}

-- The world is the time since an instant.
abbrev graph : Mailbox ℕ
graph = record {
  now = λ w. (5000000000 + w, w);
  sleep = λ length w. w + length;
  access_token = λ w. (ok "token", w);
  get = λ token term w. (answered 200 (messages (mail ∷ [])), w);
  mark_read = λ token id w. (true, w);
  move_away = λ token id w. (true, w);
}

abbrev reader : Reader ℕ
reader = record { pending_fallback_id = ""; world = 0 }

abbrev TheMail : Message → Type 0
TheMail m = m ≡ mail

graph-Delivers : Delivers TheMail graph
graph-Delivers token term w = (refl, tt)

reads_mail :
    wait_for_code python graph 3 source 5000000000 90000000 5000000 reader ≡ (ok "123456", reader)
unfolding get_receipt.Base.Text.strip get_receipt.MailCodes.matches_domain wait_for_code
reads_mail = refl

wait_for_code-Sent_example :
    Sent python source TheMail (5000000000 - clock_skew) "123456"
    ⊎ Sent python source TheMail (5000000000 - fallback_max_age) "123456"
wait_for_code-Sent_example =
    wait_for_code-Sent python source TheMail graph graph-Delivers 5000000000 (λ w. omega arith) 3
      5000000000 90000000 5000000 reader "123456" reader reads_mail

graph-Forward : Forward graph (λ w. 5000000000 + w)
graph-Forward = record {
  before_now = λ w. omega arith;
  after_now = λ w. omega arith;
  after_sleep = λ length w. omega arith;
  after_token = λ w. omega arith;
  after_get = λ token term w. omega arith;
  after_mark = λ token id w. omega arith;
  after_move = λ token id w. omega arith;
}

wait_for_code_enough_example :
    (wait_for_code python graph 20 source 5000000000 90000000 5000000 reader).0 ≢ err out_of_rounds
wait_for_code_enough_example =
    wait_for_code_enough python graph (λ w. 5000000000 + w) graph-Forward 19 source 5000000000
      90000000 5000000 reader (omega arith)
