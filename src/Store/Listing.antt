-- ===== src/Store/Listing.antt =====
-- `List` of internal/store/app.go, and ListApps of internal/admin/handler.go. The database and the
-- format of times are arguments.
pub mod Statement
mod Tests
use octo_speech.Prelude.{
  ℕ, Bool, true, false, Option, some, none, List, [], ◌∷◌, ◌++◌, map, Text, codes, text_eq,
  is_empty, if◌then◌else◌, String,
}
use octo_speech.Prelude.Http.{Outcome, abort, pass, reply}
use octo_speech.Prelude.Int.{ℤ, pos}

pub record AppRecord : Type 0 where
  pub id : ℕ
  pub app_id : Text
  pub app_name : Text
  pub status : ℤ
  pub created_at : ℕ
  pub updated_at : ℕ

-- What a statement is given in place of each "?".
pub data Arg : Type 0 where
  int : ℤ → Arg
  text : Text → Arg

pub record Query : Type 0 where
  pub statement : Text
  pub args : List Arg

abbrev pub select_apps : Text
select_apps =
    codes "SELECT id, app_id, app_name, status, created_at, updated_at FROM app_registry WHERE 1=1"

-- `query += more; args = append(args, …)`
unfoldable pub extend : Query → String → List Arg → Query
extend q more args = record { statement = q.statement ++ codes more; args = q.args ++ args }

unfoldable pub with_status : Option ℤ → Query → Query
unfolding extend
with_status none q = q
with_status (some status) q = extend q " AND status = ?" (int status ∷ [])

unfoldable pub with_keyword : Text → Query → Query
unfolding extend
with_keyword keyword q =
    let kw = codes "%" ++ (keyword ++ codes "%") in
    if is_empty keyword
    then q
    else extend q " AND (app_name LIKE ? OR app_id LIKE ?)" (text kw ∷ text kw ∷ [])

-- The statement of `List` with its arguments.
unfoldable pub list_query : Option ℤ → Text → Query
unfolding with_status with_keyword extend
list_query status keyword =
    extend
      (with_keyword keyword (with_status status (record { statement = select_apps; args = [] })))
      " ORDER BY created_at DESC" []

-- `query` is `QueryContext` with the scan of all rows; none for an error.
unfoldable pub list : (Query → Option (List AppRecord)) → Option ℤ → Text → Option (List AppRecord)
unfolding list_query
list query status keyword = query (list_query status keyword)

-- The parameter status of the request: every value but "" and "1" asks for disabled applications.
unfoldable pub status_filter : Text → Option ℤ
status_filter s =
    if is_empty s then none else (if text_eq s (codes "1") then some (pos 1) else some (pos 0))

pub record Item : Type 0 where
  pub app_id : Text
  pub app_name : Text
  pub status : ℤ
  pub created_at : Text
  pub updated_at : Text

unfoldable pub item_of : (ℕ → Text) → AppRecord → Item
item_of format a = record {
  app_id = a.app_id;
  app_name = a.app_name;
  status = a.status;
  created_at = format a.created_at;
  updated_at = format a.updated_at;
}

-- `ListApps`
unfoldable pub list_apps :
    (Query → Option (List AppRecord)) → (ℕ → Text) → Text → Text → Outcome (List Item)
unfolding list status_filter item_of
list_apps query format status keyword = elim (list query (status_filter status) keyword) [
  | none ↦ abort (reply 500 "failed to list apps")
  | some apps ↦ pass (map (item_of format) apps)
]
