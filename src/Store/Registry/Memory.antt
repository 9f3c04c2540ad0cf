-- ===== src/Store/Registry/Memory.antt =====
-- A database in memory that meets the interface. Its tables keep the unique keys: a statement or a
-- commit that would break one is refused.
use octo_speech.Prelude.{
  ℕ, suc, ◌≡◌, refl, ◌⊎◌, inl, inr, Bool, true, false, [], length, Text, text_eq, text_eq_refl,
  text_eq_iff, Option, some, none, arith, Bool-cases,
}
use octo_speech.Store.Rows.{
  Tables, add_app, add_audit, affected, find_app, find_key, is_unique, is_app, status_changes,
  key_changes, with_status, with_key, without_configs, without_profiles, without_apps,
}
use octo_speech.Store.Registry.{Database, IsDatabase, row_of}

abbrev pub Memory : Type 0
Memory = (t : Tables) × (is_unique text_eq t.apps ≡ true)

abbrev pub no_rows : Tables
no_rows = record { apps = []; configs = []; profiles = []; audits = [] }

pub no_rows_unique : is_unique text_eq no_rows.apps ≡ true
unfolding is_unique
no_rows_unique = refl

abbrev pub empty_memory : Memory
empty_memory = (no_rows, no_rows_unique)

-- Writes the tables, if the unique keys hold.
unfoldable pub put : Memory → Tables → Memory × Bool
unfolding Bool-cases is_unique
put s t = elim (Bool-cases (is_unique text_eq t.apps)) [
  | inl keys ↦ ((t, keys), true)
  | inr broken ↦ (s, false)
]

unfoldable pub counted : ℕ → Memory × Bool → Memory × Option ℕ
counted n (s, true) = (s, some n)
counted n (s, false) = (s, none)

-- The clock of the database stands at 7, and rows are numbered by their count.
abbrev pub memory : Database
memory = record {
  State = Memory;
  Transaction = Tables;
  Detail = Text;
  tables = λ s. s.0;
  draft = λ t. t;
  same = text_eq;
  select_key = λ s key. row_of (find_key text_eq key s.0.apps);
  select_app = λ s id. some (find_app text_eq id s.0.apps);
  insert_app = λ s id name key. put s (add_app (suc (length s.0.apps)) 7 id name key s.0);
  update_status = λ s id new.
      counted (affected (status_changes text_eq id new) s.0.apps)
        (put s (with_status text_eq id new 7 s.0));
  update_key = λ s id new.
      counted (affected (key_changes text_eq id new) s.0.apps)
        (put s (with_key text_eq id new 7 s.0));
  insert_audit = λ s e. put s (add_audit e s.0);
  begin_tx = λ s. some s.0;
  delete_configs = λ t id. some (without_configs text_eq id t, 0);
  delete_profiles = λ t id. some (without_profiles text_eq id t, 0);
  delete_apps = λ t id. some (without_apps text_eq id t, affected (is_app text_eq id) t.apps);
  commit = put;
  rollback = λ s t. s;
  marshal = some;
}

put-true : (s : Memory) (t : Tables) → (put s t).1 ≡ true → (put s t).0.0 ≡ t
unfolding put
put-true s t h = elim (Bool-cases (is_unique text_eq t.apps)) [
  | inl keys ↦ ground arith
  | inr broken ↦ ground arith
]

put-either : (s : Memory) (t : Tables) → ((put s t).0.0 ≡ s.0) ⊎ ((put s t).0.0 ≡ t)
unfolding put
put-either s t = elim (Bool-cases (is_unique text_eq t.apps)) [
  | inl keys ↦ inr (ground arith)
  | inr broken ↦ inl (ground arith)
]

counted-fst : (n : ℕ) (p : Memory × Bool) → (counted n p).0 ≡ p.0
unfolding counted
counted-fst n (s, true) = refl
counted-fst n (s, false) = refl

counted-some : (n k : ℕ) (p : Memory × Bool) → (counted n p).1 ≡ some k → (p.1 ≡ true) × (k ≡ n)
unfolding counted
counted-some n k (s, true) h = (refl, ground arith)
counted-some n k (s, false) h = cc

module _ (s : Memory) (n : ℕ) (t : Tables) where
  counted-put :
      (k : ℕ) → (counted n (put s t)).1 ≡ some k → ((counted n (put s t)).0.0 ≡ t) × (k ≡ n)
  counted-put k h =
      let (done, e) = counted-some n k (put s t) h in
      (rw (counted-fst n (put s t)) (put-true s t done), e)

  counted-put_either : ((counted n (put s t)).0.0 ≡ s.0) ⊎ ((counted n (put s t)).0.0 ≡ t)
  counted-put_either = rw (counted-fst n (put s t)) (put-either s t)

pub memory-IsDatabase : IsDatabase memory
memory-IsDatabase = record {
  same_refl = text_eq_refl;
  same_sym = λ a b h. ground (arith, text_eq_iff a b, text_eq_refl a);
  same_trans = λ a b c h k. ground (arith, text_eq_iff a b, text_eq_iff b c);
  unique = λ s. s.1;
  key_answer = λ s key. inr refl;
  app_answer = λ s id. inr refl;
  inserted = λ s id name key h. (suc (length s.0.apps), 7, put-true s _ h);
  not_inserted = λ s id name key. elim (put-either s _) [
    | inl same ↦ inl same
    | inr made ↦ inr (suc (length s.0.apps), 7, made)
  ];
  status_updated = λ s id new n h. let (made, count) = counted-put s _ _ n h in (7, made, count);
  status_not_updated = λ s id new. elim (counted-put_either s _ _) [
    | inl same ↦ inl same
    | inr made ↦ inr (7, made)
  ];
  key_updated = λ s id new n h. let (made, count) = counted-put s _ _ n h in (7, made, count);
  key_not_updated = λ s id new. elim (counted-put_either s _ _) [
    | inl same ↦ inl same
    | inr made ↦ inr (7, made)
  ];
  audit_inserted = λ s e h. put-true s _ h;
  audit_not_inserted = λ s e. put-either s _;
  begun = λ s t e. ground arith;
  configs_deleted = λ t u id n e. ground arith;
  profiles_deleted = λ t u id n e. ground arith;
  apps_deleted = λ t u id n e. (ground arith, ground arith);
  committed = λ s t h. put-true s t h;
  not_committed = λ s t. put-either s t;
  rolled_back = λ s t. refl;
}
