-- ===== src/Store/Listing/Statement.antt =====
-- The statements that `List` builds from a request.
use octo_speech.Prelude.{
  ℕ, ◌≡◌, refl, Bool, true, false, Option, some, none, List, [], ◌∷◌, Text, codes, is_empty, length,
  length-append, keep, keep-append, arith, ◌==◌,
}
use octo_speech.Prelude.Int.{ℤ}
use octo_speech.Store.Listing.{
  Query, Arg, int, text, select_apps, extend, with_status, with_keyword, list_query,
}

-- The places of a statement for arguments.
abbrev pub places : Text → ℕ
places s = length (keep (λ c. c == b'?') s)

abbrev IsFilled : Query → Type 0
IsFilled q = places q.statement ≡ length q.args

extend-IsFilled :
    (q : Query) (more : _) (args : List Arg)
    → IsFilled q
    → places (codes more) ≡ length args
    → IsFilled (extend q more args)
unfolding extend
extend-IsFilled q more args h e = rw (keep-append) (
    omega (
      arith,
      h,
      e,
      length-append (keep (λ (c : ℕ). c == b'?') q.statement)
          (keep (λ (c : ℕ). c == b'?') (codes more)),
      length-append q.args args,
    ))

with_status-IsFilled :
    (status : Option ℤ) (q : Query) → IsFilled q → IsFilled (with_status status q)
unfolding with_status keep
with_status-IsFilled none q h = h
with_status-IsFilled (some status) q h =
    extend-IsFilled q " AND status = ?" (int status ∷ []) h refl

with_keyword-IsFilled :
    (keyword : Text) (q : Query) → IsFilled q → IsFilled (with_keyword keyword q)
unfolding with_keyword keep
with_keyword-IsFilled [] q h = h
with_keyword-IsFilled (c ∷ keyword) q h =
    extend-IsFilled q " AND (app_name LIKE ? OR app_id LIKE ?)" (text _ ∷ text _ ∷ []) h refl

list_query-IsFilled : (status : Option ℤ) (keyword : Text) → IsFilled (list_query status keyword)
unfolding list_query keep
list_query-IsFilled status keyword =
    extend-IsFilled
      (with_keyword keyword (with_status status (record { statement = select_apps; args = [] })))
      " ORDER BY created_at DESC" []
      (with_keyword-IsFilled keyword _
        (with_status-IsFilled status (record { statement = select_apps; args = [] }) refl))
      refl

abbrev pub is_given : Option ℤ → Bool
is_given none = false
is_given (some status) = true

same_statement :
    (status other : Option ℤ) (keyword word : Text)
    → is_given status ≡ is_given other
    → is_empty keyword ≡ is_empty word
    → (list_query status keyword).statement ≡ (list_query other word).statement
unfolding list_query
same_statement none none [] [] g e = refl
same_statement none none (c ∷ k) (d ∷ w) g e = refl
same_statement (some s) (some o) [] [] g e = refl
same_statement (some s) (some o) (c ∷ k) (d ∷ w) g e = refl
same_statement none (some o) k w g e = absurd (ground arith)
same_statement (some s) none k w g e = absurd (ground arith)
same_statement none none [] (d ∷ w) g e = absurd (ground arith)
same_statement none none (c ∷ k) [] g e = absurd (ground arith)
same_statement (some s) (some o) [] (d ∷ w) g e = absurd (ground arith)
same_statement (some s) (some o) (c ∷ k) [] g e = absurd (ground arith)

-- Nothing of a request reaches the text of a statement of `List`: it is the same for two requests
-- that both give a status or both none, and both a keyword or both none. The statement has as many
-- places as there are arguments.
pub list_query-statement :
    (status other : Option ℤ) (keyword word : Text)
    → is_given status ≡ is_given other
    → is_empty keyword ≡ is_empty word
    → ((list_query status keyword).statement ≡ (list_query other word).statement)
      × (places (list_query status keyword).statement ≡ length (list_query status keyword).args)
list_query-statement status other keyword word g e =
    (same_statement status other keyword word g e, list_query-IsFilled status keyword)
