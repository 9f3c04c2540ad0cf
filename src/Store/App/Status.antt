-- ===== src/Store/App/Status.antt =====
-- `UpdateStatus` of internal/store/app.go against the rows that it is meant to find.
use octo_speech.Prelude.{
  ℕ, ◌≡◌, ◌∙◌, ap, ◌≢◌, ◌↔◌, ◌⊎◌, inl, inr, Text, Option, some, none, arith, Option-cases,
}
use octo_speech.Prelude.Int.{ℤ}
use octo_speech.Store.App.{AppStore, app_not_found, update_status}
use native.Mathlib.Decide.{ℕ_discrete}

-- The documented count of an UPDATE over the MySQL protocol without the flag for found rows, which
-- the data source name does not set: a row is counted if the statement changes it. `status_of` is
-- the status of the row of an application before the statement.
pub record CountsChanges (status_of : Text → Option ℤ) (exec : Text → ℤ → Option ℕ) : Type 0 where
  pub none_missing :
      (id : Text) (new : ℤ) (n : ℕ) → status_of id ≡ none → exec id new ≡ some n → n ≡ 0
  pub none_same :
      (id : Text) (new : ℤ) (n : ℕ) → status_of id ≡ some new → exec id new ≡ some n → n ≡ 0
  pub one_changed :
      (id : Text) (old new : ℤ) (n : ℕ)
      → status_of id ≡ some old
      → old ≢ new
      → exec id new ≡ some n
      → n ≡ 1

ℤ-discrete : Discrete ℤ
ℤ-discrete = hlevel ℕ_discrete

-- Where the database answers, `UpdateStatus` reports that the application is not found exactly if
-- there is none, or if there is one and it has the wanted status already.
pub update_status-not_found_iff :
    (status_of : Text → Option ℤ) (exec : Text → ℤ → Option ℕ)
    → CountsChanges status_of exec
    → (s : AppStore) (id : Text) (new : ℤ) (n : ℕ) → exec id new ≡ some n
    → ((update_status exec s id new).1 ≡ some app_not_found)
      ↔ ((status_of id ≡ none) ⊎ (status_of id ≡ some new))
unfolding update_status
update_status-not_found_iff status_of exec c s id new n h = (
  λ e. elim (Option-cases (status_of id)) [
    | inl missing ↦ inl missing
    | inr (old, there) ↦ elim (ℤ-discrete old new) [
      | yes same ↦ inr (there ∙ ap some same)
      | no other ↦ absurd (ground (arith, c.one_changed id old new n there other h))
    ]
  ],
  λ m. elim m [
    | inl missing ↦ ground (arith, c.none_missing id new n missing h)
    | inr same ↦ ground (arith, c.none_same id new n same h)
  ],
)
