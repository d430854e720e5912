-- ===== src/Jobs/Store/Challenges.antt =====
-- `add_challenge`, `get_challenge` and `list_challenges` of cloud/src/jobs/store.py. A challenge is
-- stored as its JSON text and read back through the checks of `Challenge`.
pub mod Kept
pub mod Apart
use get_receipt.Base.{
  ℕ, String, Bool, ◌&&◌, ◌||◌, Option, none, some, List, [], ◌∷◌, ◌++◌, ◌==◌, nat_eq, string_eq,
  ltb, any, find?, filter, or_raise, guard as require, Result, ok, ◌>>=◌ as bind,
}
use get_receipt.Base.Text.{strip}
use get_receipt.Base.Exec.{pure, lift, gets, modify, transaction, ◌>>=◌, ◌>>◌}
use get_receipt.Jobs.Payload.{
  JobError, job_not_found, idempotency_conflict, Value, null, text, instant, end, field,
}
use get_receipt.Jobs.Challenge.{Challenge, validate_challenge, same_challenge}
use get_receipt.Jobs.Challenge.Enums.{type_value}
use get_receipt.Jobs.Store.Rows.{Db, Store, is_job_of, insert_event, text_before, sort_by}
use get_receipt.Jobs.Store.Create.{get_job}

abbrev pub optional_instant : Option ℕ → Value
optional_instant none = null
optional_instant (some t) = instant t

abbrev pub has_challenge_id : String → Challenge → Bool
has_challenge_id challenge_id challenge = challenge.id == challenge_id

-- The insertion, or the branch for an identifier that is taken.
unfoldable pub insert_challenge : Challenge → Option Challenge → Store Challenge
insert_challenge challenge (some stored) = do
  existing ← lift (validate_challenge stored)
  lift (require (same_challenge existing challenge) idempotency_conflict)
  pure existing
insert_challenge challenge none = do
  modify (λ db. record db { challenges = db.challenges ++ challenge ∷ [] })
  insert_event challenge.job_id "challenge_created"
      (field "challenge_id" (text challenge.id) (
        field "challenge_type" (text (type_value challenge.type))
          (field "expires_at" (optional_instant challenge.expires_at) end)))
      challenge.created_at
  pure challenge

-- `add_challenge`.
unfoldable pub add_challenge : Challenge → String → Store Challenge
unfolding insert_challenge
add_challenge challenge owner = transaction (do
  found ← gets (λ db. any (is_job_of challenge.job_id (strip owner)) db.jobs)
  lift (require found job_not_found)
  stored ← gets (λ db. find? (has_challenge_id challenge.id) db.challenges)
  insert_challenge challenge stored)

-- The join of a challenge with its job, which must be the owner's.
abbrev pub is_owned_challenge : Db → String → String → Challenge → Bool
is_owned_challenge db challenge_id owner challenge =
    challenge.id == challenge_id && any (is_job_of challenge.job_id owner) db.jobs

-- `get_challenge`.
unfoldable pub get_challenge : String → String → Store Challenge
get_challenge challenge_id owner = do
  found ← gets (λ db. find? (is_owned_challenge db challenge_id (strip owner)) db.challenges)
  challenge ← lift (or_raise found job_not_found)
  lift (validate_challenge challenge)

-- `ORDER BY created_at, id`.
abbrev pub posed_before : Challenge → Challenge → Bool
posed_before a b =
    ltb a.created_at b.created_at || a.created_at == b.created_at && text_before a.id b.id

unfoldable pub validate_all : List Challenge → Result JobError (List Challenge)
validate_all [] = ok []
validate_all (c ∷ cs) =
    bind (validate_challenge c) (λ d. bind (validate_all cs) (λ ds. ok (d ∷ ds)))

-- `list_challenges`.
unfoldable pub list_challenges : String → String → Store (List Challenge)
unfolding validate_all
list_challenges job_id owner = do
  get_job job_id owner
  rows ← gets (λ db. sort_by posed_before (filter (λ c. c.job_id == job_id) db.challenges))
  lift (validate_all rows)
