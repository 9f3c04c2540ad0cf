-- ===== src/Api/Vocabulary/Tenants.antt =====
-- What an application reads behind its own writes and those of other applications.
use octo_speech.Prelude.{
  ℕ, ◌≡◌, refl, sym, ap, ◌∙◌, true, false, Text, codes, Option, some, none, arith, Bool-cases,
  Option-cases, inl, inr,
}
use octo_speech.Prelude.Http.{Outcome-cases, Reply, reply, abort, pass}
use octo_speech.Store.Vocabulary.{Key, Table, IsTable, or_next, query_with_priority, default_key}
use octo_speech.Api.Vocabulary.{
  PutRequest, key_of, Query, Vocabulary, check_put, check_query, put, read, get, delete,
}

check_query_app :
    (app_id : Text) (q : Query) {k : Key} → check_query app_id q ≡ pass k → k.app_id ≡ app_id
unfolding check_query
check_query_app app_id q h = ground arith

check_put_same :
    (body : Option PutRequest) {req : PutRequest} → check_put body ≡ pass req → body ≡ some req
unfolding check_put
check_put_same none h = absurd (ground arith)
check_put_same (some req) h = ground arith

module _ {S : Type 0} (t : Table S) (reader : Text) where
  -- A state in which the reader's rows and the defaults are as before.
  pub record IsKept (s s' : S) : Type 0 where
    pub own : (j : Key) → j.app_id ≡ reader → t.select s' j ≡ t.select s j
    pub shared : (j : Key) → j.app_id ≡ codes "*" → t.select s' j ≡ t.select s j

  pub get-IsKept :
      (format : ℕ → Text) (s s' : S) (q : Query)
      → IsKept s s'
      → get t format s' reader q ≡ get t format s reader q
  unfolding get query_with_priority
  get-IsKept format s s' q kept = elim (Outcome-cases (check_query reader q)) [
    | inl (r, e) ↦ rw e refl
    | inr (k, e) ↦
        rw
          (
            e,
            kept.own k (check_query_app reader q e),
            kept.own (default_key k.app_id k.subject_id) (check_query_app reader q e),
            kept.shared (default_key (codes "*") k.subject_id) refl,
          )
          refl
  ]

  pub IsKept-refl : (s : S) → IsKept s s
  IsKept-refl s = record { own = λ j at. refl; shared = λ j at. refl }

  pub IsKept-trans : {s s' s'' : S} → IsKept s s' → IsKept s' s'' → IsKept s s''
  IsKept-trans first then' = record {
    own = λ j at. then'.own j at ∙ first.own j at;
    shared = λ j at. then'.shared j at ∙ first.shared j at;
  }

module _ {S : Type 0} (t : Table S) (laws : IsTable t) (writer reader : Text)
    (apart : t.same_app writer reader ≡ false)
    (no_default : t.same_app writer (codes "*") ≡ false) where
  other_key : (k j : Key) → t.same_app k.app_id j.app_id ≡ false → t.same k j ≡ false
  other_key k j h = elim (Bool-cases (t.same k j)) [
    | inl same ↦ absurd (ground (arith, laws.same_apps k j same))
    | inr other ↦ other
  ]

  -- What leaves the rows of the other keys alone keeps the reader's and the defaults.
  keeps :
      (s s' : S) (k : Key)
      → k.app_id ≡ writer
      → ((j : Key) → t.same k j ≡ false → t.select s' j ≡ t.select s j)
      → IsKept t reader s s'
  keeps s s' k by others = record {
    own = λ j at. others j (other_key k j (rw (by, at) apart));
    shared = λ j at. others j (other_key k j (rw (by, at) no_default));
  }

  pub put-IsKept : (s : S) (body : Option PutRequest) → IsKept t reader s (put t s writer body).0
  unfolding put
  put-IsKept s body = elim (Outcome-cases (check_put body)) [
    | inl (r, e) ↦ rw (put, e) (IsKept-refl t reader s)
    | inr (req, e) ↦
        elim (Option-cases (t.upsert s (key_of writer req) req.content req.updated_by)) [
          | inl error ↦ rw (put, e, error) (IsKept-refl t reader s)
          | inr (s', done) ↦
              rw (put, e, done)
                (keeps s s' (key_of writer req) refl (λ j other.
                  laws.select_upsert_other s s' (key_of writer req) j req.content req.updated_by
                    done other))
        ]
  ]

  pub delete-IsKept : (s : S) (q : Query) → IsKept t reader s (delete t s writer q).0
  unfolding delete
  delete-IsKept s q = elim (Outcome-cases (check_query writer q)) [
    | inl (r, e) ↦ rw (delete, e) (IsKept-refl t reader s)
    | inr (k, e) ↦ elim (Option-cases (t.remove s k)) [
      | inl error ↦ rw (delete, e, error) (IsKept-refl t reader s)
      | inr (s', done) ↦
          rw (delete, e, done)
            (keeps s s' k (check_query_app writer q e)
              (λ j other. laws.select_remove_other s s' k j done other))
    ]
  ]

  -- Neither a Put nor a Delete of one application, whatever it asks for, changes what another
  -- application reads, unless the database takes the writer's identifier for the reader's or for
  -- that of the defaults, "*".
  pub get-put_other :
      (format : ℕ → Text) (s : S) (body : Option PutRequest) (gone q : Query)
      → (get t format (put t s writer body).0 reader q ≡ get t format s reader q)
        × (get t format (delete t s writer gone).0 reader q ≡ get t format s reader q)
  get-put_other format s body gone q = (
    get-IsKept t reader format s (put t s writer body).0 q (put-IsKept s body),
    get-IsKept t reader format s (delete t s writer gone).0 q (delete-IsKept s gone),
  )

check_put_refuses :
    (body : Option PutRequest) {r : Reply} → check_put body ≡ abort r → r.status ≡ 400
unfolding check_put
check_put_refuses none h = ground arith
check_put_refuses (some req) h = ground arith

-- What `Put` has done where it answers 200.
put_inv :
    {S : Type 0} (t : Table S) (s : S) (app_id : Text) (req : PutRequest)
    → (put t s app_id (some req)).1.status ≡ 200
    → (check_put (some req) ≡ pass req)
      × (t.upsert s (key_of app_id req) req.content req.updated_by
          ≡ some (put t s app_id (some req)).0)
unfolding put
put_inv t s app_id req h = elim (Outcome-cases (check_put (some req))) [
  | inl (r, e) ↦
      let answer : (put t s app_id (some req)).1 ≡ r = rw (put, e) refl in
      absurd (omega (arith, h, ap Reply.status answer, check_put_refuses (some req) e))
  | inr (req', e) ↦
      let fine : check_put (some req) ≡ pass req = ground (arith, check_put_same (some req) e) in
      elim (Option-cases (t.upsert s (key_of app_id req) req.content req.updated_by)) [
        | inl error ↦
            let answer : (put t s app_id (some req)).1 ≡ reply 500 "failed to save vocabulary" =
              rw (put, fine, error) refl in
            absurd (omega (arith, h, ap Reply.status answer))
        | inr (s', done) ↦
            let state : (put t s app_id (some req)).0 ≡ s' = rw (put, fine, done) refl in
            (fine, done ∙ ap some (sym state))
      ]
]

-- A body that `Put` accepts names a scope that `Get` accepts.
check_query_of_put :
    (app_id : Text) (req : PutRequest)
    → check_put (some req) ≡ pass req
    → check_query app_id (record {
      subject_id = req.subject_id;
      scope_type = req.scope_type;
      scope_id = req.scope_id;
    })
      ≡ pass (key_of app_id req)
unfolding check_put check_query
check_query_of_put app_id req h = ground arith

-- A vocabulary that Put has saved is what Get answers for the same subject and scope.
pub get-put :
    {S : Type 0} (t : Table S) (laws : IsTable t) (format : ℕ → Text) (s : S) (app_id : Text)
    (req : PutRequest)
    → (put t s app_id (some req)).1.status ≡ 200
    → (v : Vocabulary) × (get t format (put t s app_id (some req)).0 app_id (record {
      subject_id = req.subject_id;
      scope_type = req.scope_type;
      scope_id = req.scope_id;
    })
        ≡ pass v)
      × (v.has_content ≡ true)
      × (v.content ≡ req.content)
unfolding get query_with_priority read or_next
get-put t laws format s app_id req h =
    let (fine, done) = put_inv t s app_id req h in
    let s' = (put t s app_id (some req)).0 in
    let k = key_of app_id req in
    let (p, there, same) =
      laws.select_upsert s s' k k req.content req.updated_by done (laws.same_refl k) in
    (
      record { has_content = true; content = p.content; updated_at = format p.updated_at },
      rw (check_query_of_put app_id req fine, there) refl,
      refl,
      same,
    )
