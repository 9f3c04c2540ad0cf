-- ===== src/Api/LocalConfig/Tenants.antt =====
-- What an application reads of its local configurations behind the writes of another one.
use octo_speech.Prelude.{
  ◌≡◌, refl, ap, sym, ◌∙◌, false, Bool, Text, Option, some, none, arith, Option-cases, inl, inr,
}
use octo_speech.Prelude.Http.{
  Outcome, Outcome-cases, abort, pass, reply, pass_parts, ◌>>◌, guard, pass-injective,
}
use octo_speech.Config.{Config}
use octo_speech.Store.Vocabulary.{Key}
use octo_speech.Store.LocalConfig.{Table, HasOwnRows, Given, query, upsert_of, reset_of}
use octo_speech.Api.LocalConfig.{
  Body, check_body, check_scope, check_put, put, reset, delete, get, handle_config, save, reset_to,
  remove_at, timeout_ok, check_url, probe_message, transcribe_message,
}

check_scope_app :
    (app_id subject_id scope_type scope_id : Text) {k : Key}
    → check_scope app_id subject_id scope_type scope_id ≡ pass k
    → k.app_id ≡ app_id
unfolding check_scope
check_scope_app app_id subject_id scope_type scope_id h = ground arith

-- What stands behind three tests that pass.
behind_tests :
    {B : Type 0} (one two three : Outcome (Unit {0})) {x b : B}
    → (one >> (two >> (three >> pass x))) ≡ pass b
    → x ≡ b
behind_tests (pass u) (pass v) (pass w) h = pass-injective h
behind_tests (abort r) two three h = absurd (cc)
behind_tests (pass u) (abort r) three h = absurd (cc)
behind_tests (pass u) (pass v) (abort r) h = absurd (cc)

enabled_key :
    (b : Body) (k : Key) {k' : Key} {e : Bool} {b' : Body}
    → ◌≡◌ {A = Outcome (Key × Bool × Body)}
        (elim b.enabled [
          | none ↦ abort (reply 400 "enabled is required")
          | some enabled ↦ pass (k, enabled, b)
        ])
        (pass (k', e, b'))
    → k ≡ k'
enabled_key b k h = elim (Option-cases b.enabled) [
  | inl missing ↦ absurd (ground (arith, missing))
  | inr (enabled, there) ↦ ground (arith, there)
]

check_body_app :
    (app_id : Text) (body : Option Body) {k : Key} {e : Bool} {b : Body}
    → check_body app_id body ≡ pass (k, e, b)
    → k.app_id ≡ app_id
unfolding check_body check_scope
check_body_app app_id none h = absurd (ground arith)
check_body_app app_id (some b) h =
    pass_parts (check_scope app_id b.subject_id b.scope_type b.scope_id) _ h λ k scoped rest.
      check_scope_app app_id b.subject_id b.scope_type b.scope_id
        (scoped ∙ ap pass (enabled_key b k rest))

check_put_app :
    {S : Type 0} (t : Table S) (cfg : Config) (parse : Text → Option (Text × Text)) (app_id : Text)
    (body : Option Body) {k : Key} {g : Given}
    → check_put t cfg parse app_id body ≡ pass (k, g)
    → k.app_id ≡ app_id
unfolding check_put
check_put_app t cfg parse app_id body h = pass_parts (check_body app_id body) _ h λ kb bodied rest.
    let same =
      behind_tests
        (guard (timeout_ok kb.2.timeout_ms) (reply 400 "timeout_ms must be between 1 and 60000"))
        (check_url parse probe_message kb.2.probe_url)
        (check_url parse transcribe_message kb.2.transcribe_url) rest in
    sym (ap (λ x. x.0.app_id) same) ∙ check_body_app app_id body bodied

module _ {S : Type 0} (t : Table S) (cfg : Config) (reader : Text) where
  -- A state in which the reader's rows are as before.
  pub record IsKept (s s' : S) : Type 0 where
    pub own : (j : Key) → j.app_id ≡ reader → t.select s' j ≡ t.select s j

  pub IsKept-refl : (s : S) → IsKept s s
  IsKept-refl s = record { own = λ j at. refl }

  pub IsKept-trans : {s s' s'' : S} → IsKept s s' → IsKept s' s'' → IsKept s s''
  IsKept-trans first then' = record { own = λ j at. then'.own j at ∙ first.own j at }

  query-IsKept :
      (s s' : S) (k : Key) → k.app_id ≡ reader → IsKept s s' → query t cfg s' k ≡ query t cfg s k
  unfolding query
  query-IsKept s s' k at kept = rw (kept.own k at) refl

  pub handle_config-IsKept :
      (s s' : S) (k : Key)
      → k.app_id ≡ reader
      → IsKept s s'
      → handle_config t cfg s' k ≡ handle_config t cfg s k
  unfolding handle_config
  handle_config-IsKept s s' k at kept = rw (query-IsKept s s' k at kept) refl

  pub get-IsKept :
      (s s' : S) (subject_id scope_type scope_id : Text)
      → IsKept s s'
      → get t cfg s' reader subject_id scope_type scope_id
        ≡ get t cfg s reader subject_id scope_type scope_id
  unfolding get
  get-IsKept s s' u v w kept = elim (Outcome-cases (check_scope reader u v w)) [
    | inl (r, e) ↦ rw e refl
    | inr (k, e) ↦ rw (e, query-IsKept s s' k (check_scope_app reader u v w e) kept) refl
  ]

module _ {S : Type 0} (t : Table S) (same_app : Text → Text → Bool) (rows : HasOwnRows t same_app)
    (cfg : Config) (writer reader : Text) (apart : same_app writer reader ≡ false) where
  save-IsKept :
      (s : S) (o : Outcome (Key × Given))
      → ((k : Key) (g : Given) → o ≡ pass (k, g) → k.app_id ≡ writer)
      → IsKept t cfg reader s (save t cfg s o).0
  unfolding save
  save-IsKept s (abort r) by = IsKept-refl t cfg reader s
  save-IsKept s (pass (k, g)) by = elim (Option-cases (t.upsert s (upsert_of k g))) [
    | inl error ↦ rw (save, error) (IsKept-refl t cfg reader s)
    | inr (s', done) ↦
        rw (save, done)
          (record {
            own = λ j at.
                rows.select_upsert_other s s' (upsert_of k g) j done (rw (by k g refl, at) apart);
          })
  ]

  -- Whatever a Put of one application asks for, the rows of another are as before.
  pub put-IsKept :
      (parse : Text → Option (Text × Text)) (s : S) (body : Option Body)
      → IsKept t cfg reader s (put t cfg parse s writer body).0
  unfolding put
  put-IsKept parse s body =
      save-IsKept s (check_put t cfg parse writer body)
        (λ k g e. check_put_app t cfg parse writer body e)

  reset_to-IsKept :
      (s : S) (o : Outcome (Key × Bool × Body))
      → ((k : Key) (e : Bool) (b : Body) → o ≡ pass (k, e, b) → k.app_id ≡ writer)
      → IsKept t cfg reader s (reset_to t cfg s o).0
  unfolding reset_to
  reset_to-IsKept s (abort r) by = IsKept-refl t cfg reader s
  reset_to-IsKept s (pass (k, e, b)) by = elim (Option-cases (t.upsert s (reset_of k e))) [
    | inl error ↦ rw (reset_to, error) (IsKept-refl t cfg reader s)
    | inr (s', done) ↦
        rw (reset_to, done)
          (record {
            own = λ j at.
                rows.select_upsert_other s s' (reset_of k e) j done (rw (by k e b refl, at) apart);
          })
  ]

  pub reset-IsKept :
      (s : S) (body : Option Body) → IsKept t cfg reader s (reset t cfg s writer body).0
  unfolding reset
  reset-IsKept s body =
      reset_to-IsKept s (check_body writer body) (λ k e b h. check_body_app writer body h)

  remove_at-IsKept :
      (s : S) (o : Outcome Key)
      → ((k : Key) → o ≡ pass k → k.app_id ≡ writer)
      → IsKept t cfg reader s (remove_at t cfg s o).0
  unfolding remove_at
  remove_at-IsKept s (abort r) by = IsKept-refl t cfg reader s
  remove_at-IsKept s (pass k) by = elim (Option-cases (t.remove s k)) [
    | inl error ↦ rw (remove_at, error) (IsKept-refl t cfg reader s)
    | inr ((s', n), done) ↦
        rw (remove_at, done)
          (record {
            own = λ j at. rows.select_remove_other s s' k j done (rw (by k refl, at) apart);
          })
  ]

  pub delete-IsKept :
      (s : S) (subject_id scope_type scope_id : Text)
      → IsKept t cfg reader s (delete t cfg s writer subject_id scope_type scope_id).0
  unfolding delete
  delete-IsKept s u v w =
      remove_at-IsKept s (check_scope writer u v w) (λ k h. check_scope_app writer u v w h)
