-- ===== src/Api/Vocabulary.antt =====
-- The handlers of internal/api/vocabulary.go. The binding of the JSON body is an argument, and so is
-- the format of a time.
pub mod Tenants
pub mod Tests
use octo_speech.Prelude.{
  ℕ, Bool, true, false, List, [], ◌∷◌, Text, codes, is_empty, length, leb, if◌then◌else◌, not, ◌||◌,
  ◌&&◌, Option, some, none,
}
use octo_speech.Prelude.Http.{Reply, reply, Outcome, abort, pass, ◌>>=◌, ◌>>◌, guard}
use octo_speech.Store.Vocabulary.{
  Key, Profile, Select, profile, no_profile, failed, Table, is_valid_scope_type,
  query_with_priority,
}

pub record PutRequest : Type 0 where
  pub subject_id : Text
  pub scope_type : Text
  pub scope_id : Text
  pub content : Text
  pub updated_by : Text

-- const maxContentLength
abbrev pub max_content_length : ℕ
max_content_length = 10000

-- `Put` up to the call of the store; no request is a body that does not bind.
unfoldable pub check_put : Option PutRequest → Outcome PutRequest
check_put none = abort (reply 400 "invalid request body")
check_put (some req) = do
  guard (not (is_empty req.subject_id || is_empty req.scope_type || is_empty req.scope_id))
      (reply 400 "subject_id, scope_type, and scope_id are required")
  guard (is_valid_scope_type req.scope_type)
      (reply 400 "invalid scope_type, expected: global, space, org, project")
  guard (not (is_empty req.content)) (reply 400 "content is required")
  guard (leb (length req.content) max_content_length)
      (reply 400 "content exceeds maximum length of 10000 characters")
  guard (not (is_empty req.updated_by)) (reply 400 "updated_by is required")
  pass req

abbrev pub key_of : Text → PutRequest → Key
key_of app_id req = record {
  app_id = app_id;
  subject_id = req.subject_id;
  scope_type = req.scope_type;
  scope_id = req.scope_id;
}

-- The parameters of `Get` and `Delete`, "" if absent.
pub record Query : Type 0 where
  pub subject_id : Text
  pub scope_type : Text
  pub scope_id : Text

abbrev or_default : Text → Text → Text
or_default default s = if is_empty s then default else s

-- `Get` and `Delete` up to the call of the store.
unfoldable pub check_query : Text → Query → Outcome Key
check_query app_id q = do
  guard (not (is_empty q.subject_id)) (reply 400 "subject_id is required")
  guard
      ((is_empty q.scope_type && is_empty q.scope_id)
        || (not (is_empty q.scope_type) && not (is_empty q.scope_id)))
      (reply 400 "scope_type and scope_id must be provided together")
  guard (is_valid_scope_type (or_default (codes "global") q.scope_type))
      (reply 400 "invalid scope_type, expected: global, space, org, project")
  pass (record {
    app_id = app_id;
    subject_id = q.subject_id;
    scope_type = or_default (codes "global") q.scope_type;
    scope_id = or_default (codes "default") q.scope_id;
  })

-- The body of an answer of `Get` with status 200.
pub record Vocabulary : Type 0 where
  pub has_content : Bool
  pub content : Text
  pub updated_at : Text

module _ {S : Type 0} (t : Table S) where
  -- `Put`: the state behind it, and the answer.
  unfoldable pub put : S → Text → Option PutRequest → S × Reply
  put s app_id body = elim (check_put body) [
    | abort r ↦ (s, r)
    | pass req ↦ elim (t.upsert s (key_of app_id req) req.content req.updated_by) [
      | none ↦ (s, reply 500 "failed to save vocabulary")
      | some s' ↦ (s', reply 200 "ok")
    ]
  ]

  unfoldable pub read : (ℕ → Text) → Select → Outcome Vocabulary
  read format (profile p) =
      pass (record { has_content = true; content = p.content; updated_at = format p.updated_at })
  read format no_profile = pass (record { has_content = false; content = []; updated_at = [] })
  read format failed = abort (reply 500 "failed to query vocabulary")

  -- `Get`
  unfoldable pub get : (ℕ → Text) → S → Text → Query → Outcome Vocabulary
  get format s app_id q = do k ← check_query app_id q; read format (query_with_priority t s k)

  -- `Delete`
  unfoldable pub delete : S → Text → Query → S × Reply
  delete s app_id q = elim (check_query app_id q) [
    | abort r ↦ (s, r)
    | pass k ↦ elim (t.remove s k) [
      | none ↦ (s, reply 500 "failed to delete vocabulary")
      | some s' ↦ (s', reply 200 "ok")
    ]
  ]
