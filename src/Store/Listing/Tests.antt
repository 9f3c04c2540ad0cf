-- ===== src/Store/Listing/Tests.antt =====
-- A list of enabled applications, and of those with a name.
use octo_speech.Prelude.{◌≡◌, refl, some, none, [], ◌∷◌, ◌++◌, Text, codes, length}
use octo_speech.Prelude.Int.{pos}
use octo_speech.Store.Listing.{int, text, select_apps, list_query}
use octo_speech.Store.Listing.Statement.{places, list_query-statement}

abbrev hostile : Text
hostile = codes "' OR 1=1 --"

run : list_query (some (pos 1)) (codes "oc") ≡ record {
  statement =
      select_apps
      ++ codes " AND status = ? AND (app_name LIKE ? OR app_id LIKE ?) ORDER BY created_at DESC";
  args = int (pos 1) ∷ text (codes "%oc%") ∷ text (codes "%oc%") ∷ [];
}
unfolding list_query
run = refl

list_query-statement_example :
    ((list_query none hostile).statement ≡ (list_query none (codes "oc")).statement)
    × (places (list_query none hostile).statement ≡ length (list_query none hostile).args)
list_query-statement_example = list_query-statement none none hostile (codes "oc") refl refl
