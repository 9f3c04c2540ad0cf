-- ===== src/Store/Rows/Find.antt =====
-- What the statements on app_registry leave for the queries to find.
use octo_speech.Prelude.{
  ℕ, ◌≡◌, refl, Bool, true, false, not, [], ◌∷◌, ◌++◌, List, Text, text_eq→eq, some, none,
  if◌then◌else◌, arith, Bool-cases, inl, inr, keep,
}
use octo_speech.Prelude.Int.{ℤ, pos, negsuc}
use octo_speech.Store.Rows.{
  AppRow, eq_ℤ, update, affected, set_status, set_key, find_app, find_key, is_fresh, is_unique,
  is_app, status_changes, key_changes,
}

pub eq_ℤ→eq : (a b : ℤ) → eq_ℤ a b ≡ true → a ≡ b
eq_ℤ→eq (pos a) (pos b) h = ground arith
eq_ℤ→eq (pos a) (negsuc b) h = cc
eq_ℤ→eq (negsuc a) (pos b) h = cc
eq_ℤ→eq (negsuc a) (negsuc b) h = ground arith

-- A statement that affects no row changes none.
pub update-unaffected :
    (p : AppRow → Bool) (f : AppRow → AppRow) (rows : List AppRow)
    → affected p rows ≡ 0
    → update p f rows ≡ rows
unfolding affected update keep
update-unaffected p f [] h = refl
update-unaffected p f (r ∷ rows) h = ground (arith, update-unaffected p f rows)

pub keep-unaffected :
    (p : AppRow → Bool) (rows : List AppRow)
    → affected p rows ≡ 0
    → keep (λ r. not (p r)) rows ≡ rows
unfolding affected keep
keep-unaffected p [] h = refl
keep-unaffected p (r ∷ rows) h = ground (arith, keep-unaffected p rows)

module _ (same : Text → Text → Bool) where
  pub find_key-append :
      (key : Text) (rows more : List AppRow) (r : AppRow)
      → find_key same key rows ≡ some r
      → find_key same key (rows ++ more) ≡ some r
  unfolding find_key
  find_key-append key [] more r h = cc
  find_key-append key (q ∷ rows) more r h = ground (arith, find_key-append key rows more r)

  -- The status that an UPDATE leaves with a key; its application stays.
  pub find_key-set_status :
      (key id : Text) (new : ℤ) (now : ℕ) (rows : List AppRow) (r : AppRow)
      → find_key same key rows ≡ some r
      → (q : AppRow) × (find_key same key
            (update (status_changes same id new) (set_status new now) rows)
          ≡ some q)
        × (q.app_id ≡ r.app_id)
        × (q.status ≡ (if same r.app_id id then new else r.status))
  unfolding find_key update
  find_key-set_status key id new now [] r h = cc
  find_key-set_status key id new now (q ∷ rows) r h = elim (Bool-cases (same q.api_key key)) [
    | inl here ↦
        let e : q ≡ r = ground arith in
        (
          if status_changes same id new q then set_status new now q else q,
          ground arith,
          ground arith,
          ground (arith, eq_ℤ→eq q.status new),
        )
    | inr there ↦
        let (s, found, app, status) = find_key-set_status key id new now rows r (ground arith) in
        (s, ground arith, app, status)
  ]

module _ (same : Text → Text → Bool) (same_refl : (a : Text) → same a a ≡ true)
    (same_sym : (a b : Text) → same a b ≡ true → same b a ≡ true)
    (same_trans : (a b c : Text) → same a b ≡ true → same b c ≡ true → same a c ≡ true) where
  fresh-find_key :
      (key : Text) (q : AppRow) (rows : List AppRow)
      → is_fresh same q rows ≡ true
      → same q.api_key key ≡ true
      → find_key same key rows ≡ none
  unfolding is_fresh find_key
  fresh-find_key key q [] h e = refl
  fresh-find_key key q (r ∷ rows) h e =
      ground (
        arith,
        same_trans r.api_key key q.api_key,
        same_sym q.api_key key,
        fresh-find_key key q rows,
      )

  -- An inserted row is found by its key.
  pub find_key-inserted :
      (r : AppRow) (rows : List AppRow)
      → is_unique same (rows ++ r ∷ []) ≡ true
      → find_key same r.api_key (rows ++ r ∷ []) ≡ some r
  unfolding is_unique find_key
  find_key-inserted r [] h = rw (same_refl r.api_key) refl
  find_key-inserted r (q ∷ rows) h =
      ground (arith, find_key-inserted r rows, fresh-find_key r.api_key q (rows ++ r ∷ []))

  find_key-none-set_key :
      (key id new : Text) (now : ℕ) (rows : List AppRow)
      → find_key same key rows ≡ none
      → same new key ≡ false
      → find_key same key (update (key_changes same id new) (set_key new now) rows) ≡ none
  unfolding find_key update
  find_key-none-set_key key id new now [] h e = refl
  find_key-none-set_key key id new now (q ∷ rows) h e =
      ground (arith, find_key-none-set_key key id new now rows)

  -- A key that has been replaced finds nothing.
  pub find_key-replaced :
      (key id new : Text) (now : ℕ) (rows : List AppRow) (r : AppRow)
      → is_unique same rows ≡ true
      → find_key same key rows ≡ some r
      → same r.app_id id ≡ true
      → same new key ≡ false
      → find_key same key (update (key_changes same id new) (set_key new now) rows) ≡ none
  unfolding find_key update is_unique
  find_key-replaced key id new now [] r u h app other = refl
  find_key-replaced key id new now (q ∷ rows) r u h app other = ground (
    arith,
    text_eq→eq q.api_key new,
    fresh-find_key key q rows,
    find_key-none-set_key key id new now rows,
    find_key-replaced key id new now rows r,
  )

  -- The new key finds the application that it was given to.
  pub find_key-set_key :
      (id new : Text) (now : ℕ) (rows : List AppRow) (r : AppRow)
      → is_unique same (update (key_changes same id new) (set_key new now) rows) ≡ true
      → find_app same id rows ≡ some r
      → (q : AppRow) × (find_key same new (update (key_changes same id new) (set_key new now) rows)
          ≡ some q)
        × (q.app_id ≡ r.app_id)
        × (q.status ≡ r.status)
  unfolding find_app find_key update is_unique
  find_key-set_key id new now [] r u h = cc
  find_key-set_key id new now (q ∷ rows) r u h = elim (Bool-cases (same q.app_id id)) [
    | inl here ↦
        let e : q ≡ r = ground arith in
        (
          if key_changes same id new q then set_key new now q else q,
          ground (arith, same_refl new, text_eq→eq q.api_key new),
          ground arith,
          ground arith,
        )
    | inr there ↦
        let (s, found, app, status) =
          find_key-set_key id new now rows r (ground arith) (ground arith) in
        (
          s,
          ground (
            arith,
            fresh-find_key new q (update (key_changes same id new) (set_key new now) rows),
          ),
          app,
          status,
        )
  ]

  -- The keys of other applications find what they found.
  pub find_key-set_key_other :
      (key id new : Text) (now : ℕ) (rows : List AppRow) (r : AppRow)
      → is_unique same (update (key_changes same id new) (set_key new now) rows) ≡ true
      → find_key same key rows ≡ some r
      → same r.app_id id ≡ false
      → find_key same key (update (key_changes same id new) (set_key new now) rows) ≡ some r
  unfolding find_key update is_unique
  find_key-set_key_other key id new now [] r u h app = cc
  find_key-set_key_other key id new now (q ∷ rows) r u h app = ground (
    arith,
    text_eq→eq q.api_key new,
    find_key-set_key_other key id new now rows r,
    fresh-find_key key (set_key new now q)
        (update (key_changes same id new) (set_key new now) rows),
  )

  keep-fresh :
      (p : AppRow → Bool) (key : Text) (rows : List AppRow)
      → find_key same key rows ≡ none
      → find_key same key (keep p rows) ≡ none
  unfolding find_key keep
  keep-fresh p key [] h = refl
  keep-fresh p key (q ∷ rows) h = ground (arith, keep-fresh p key rows)

  -- A deleted application's key finds nothing, another's what it found.
  pub find_key-deleted :
      (key id : Text) (rows : List AppRow) (r : AppRow)
      → is_unique same rows ≡ true
      → find_key same key rows ≡ some r
      → find_key same key (keep (λ q. not (is_app same id q)) rows)
        ≡ (if same r.app_id id then none else some r)
  unfolding find_key keep is_unique
  find_key-deleted key id [] r u h = cc
  find_key-deleted key id (q ∷ rows) r u h = ground (
    arith,
    fresh-find_key key q rows,
    keep-fresh (λ (q : AppRow). not (is_app same id q)) key rows,
    find_key-deleted key id rows r,
  )
