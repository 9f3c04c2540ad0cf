-- ===== src/Api/LocalConfig/Defaults.antt =====
-- What Get answers behind a Put and behind a Reset.
use octo_speech.Prelude.{
  ◌≡◌, refl, sym, ap, ◌∙◌, ◌≢◌, Bool, true, false, [], Text, is_empty, Option, some, none, arith,
  ◌||◌, text_eq, Option-cases, inl, inr,
}
use octo_speech.Prelude.Http.{Outcome, abort, pass, guard, pass_parts}
use octo_speech.Prelude.Int.{ℤ}
use octo_speech.Config.{Config}
use octo_speech.Store.Vocabulary.{Key}
use octo_speech.Store.LocalConfig.{
  or_default, Given, LocalAsrConfig, Row, Table, IsTable, query, read_row, effective,
  default_config, tinyint, is_one, Columns, row, upsert_of, reset_of, outcome, no_columns,
}
use octo_speech.Api.LocalConfig.{
  check_url, timeout_ok, probe_message, transcribe_message, save, put, check_put, Body, check_scope,
  check_body, answer_config, get, reset, reset_to,
}

check_scope_inv :
    (app_id subject_id scope_type scope_id : Text) {k : Key}
    → check_scope app_id subject_id scope_type scope_id ≡ pass k
    → (is_empty subject_id || is_empty scope_type || is_empty scope_id) ≡ false
unfolding check_scope
check_scope_inv app_id subject_id scope_type scope_id h = ground arith

pub check_scope_key :
    (app_id subject_id scope_type scope_id : Text) {k : Key}
    → check_scope app_id subject_id scope_type scope_id ≡ pass k
    → k ≡ record {
      app_id = app_id;
      subject_id = subject_id;
      scope_type = scope_type;
      scope_id = scope_id;
    }
unfolding check_scope
check_scope_key app_id subject_id scope_type scope_id h = ground arith

is_one-tinyint : (b : Bool) → is_one (tinyint b) ≡ b
is_one-tinyint true = refl
is_one-tinyint false = refl

check_body_scope :
    (app_id : Text) (b : Body) {k : Key} {enabled : Bool} {b' : Body}
    → check_body app_id (some b) ≡ pass (k, enabled, b')
    → check_scope app_id b.subject_id b.scope_type b.scope_id ≡ pass k
unfolding check_body
check_body_scope app_id b h =
    pass_parts (check_scope app_id b.subject_id b.scope_type b.scope_id) _ h λ k scope rest.
      elim (Option-cases b.enabled) [
        | inl missing ↦ absurd (ground arith)
        | inr (e, there) ↦ ground arith
      ]

pub check_body_given :
    (app_id : Text) (b : Body) {k : Key} {enabled : Bool} {b' : Body}
    → check_body app_id (some b) ≡ pass (k, enabled, b')
    → (b.enabled ≡ some enabled) × (b' ≡ b)
unfolding check_body
check_body_given app_id b h =
    pass_parts (check_scope app_id b.subject_id b.scope_type b.scope_id) _ h λ k scope rest.
      elim (Option-cases b.enabled) [
        | inl missing ↦ absurd (ground arith)
        | inr (e, there) ↦ (ground arith, ground arith)
      ]

abbrev columns_or_null : Option Columns → Columns
columns_or_null none = no_columns
columns_or_null (some c) = c

-- The value that a statement gives, or the old one.
abbrev keeps {ℓ} : {A : Type ℓ} → Option A → Option A → Option A
keeps (some new) old = some new
keeps none old = old

-- A column that a statement names is read back, whatever was there.
given_wins {ℓ} :
    {A : Type ℓ} (default : A) (given old : Option A) (b : Option A)
    → given ≡ b
    → or_default (or_default default (keeps given old)) b ≡ or_default default (keeps given old)
given_wins default given old none h = refl
given_wins default given old (some n) h = rw h refl

-- What the two statements make of a row, whether or not it was there.
outcome-upsert_of :
    (k : Key) (on : Bool) (ms : Option ℤ) (probe url : Option Text) (old : Option Columns)
    → let g : Given = record {
      enabled = on;
      timeout_ms = ms;
      probe_url = probe;
      transcribe_url = url;
    } in
      outcome (upsert_of k g) old ≡ record {
        enabled = some (tinyint on);
        timeout_ms = keeps ms (columns_or_null old).timeout_ms;
        probe_url = keeps probe (columns_or_null old).probe_url;
        transcribe_url = keeps url (columns_or_null old).transcribe_url;
      }
unfolding outcome text_eq
outcome-upsert_of k on none none none none = refl
outcome-upsert_of k on none none (some u) none = refl
outcome-upsert_of k on none (some p) none none = refl
outcome-upsert_of k on none (some p) (some u) none = refl
outcome-upsert_of k on (some n) none none none = refl
outcome-upsert_of k on (some n) none (some u) none = refl
outcome-upsert_of k on (some n) (some p) none none = refl
outcome-upsert_of k on (some n) (some p) (some u) none = refl
outcome-upsert_of k on none none none (some c) = refl
outcome-upsert_of k on none none (some u) (some c) = refl
outcome-upsert_of k on none (some p) none (some c) = refl
outcome-upsert_of k on none (some p) (some u) (some c) = refl
outcome-upsert_of k on (some n) none none (some c) = refl
outcome-upsert_of k on (some n) none (some u) (some c) = refl
outcome-upsert_of k on (some n) (some p) none (some c) = refl
outcome-upsert_of k on (some n) (some p) (some u) (some c) = refl

outcome-reset_of :
    (k : Key) (on : Bool) (old : Option Columns)
    → outcome (reset_of k on) old ≡ record no_columns { enabled = some (tinyint on) }
unfolding outcome text_eq
outcome-reset_of k on none = refl
outcome-reset_of k on (some c) = refl

module _ {S : Type 0} (t : Table S) (cfg : Config) where
  reset_to_inv :
      (s : S) (m : Outcome (Key × Bool × Body)) {c : LocalAsrConfig}
      → (reset_to t cfg s m).1 ≡ pass c
      → (k : Key) × (enabled : Bool) × (b : Body) × (m ≡ pass (k, enabled, b))
        × (t.upsert s (reset_of k enabled) ≡ some (reset_to t cfg s m).0)
        × (c ≡ record (default_config cfg) { enabled = enabled })
  unfolding reset_to
  reset_to_inv s (abort r) h = absurd (ground arith)
  reset_to_inv s (pass (k, enabled, b)) h = elim (Option-cases (t.upsert s (reset_of k enabled))) [
    | inl error ↦ absurd (ground arith)
    | inr (s', done) ↦
        let state : (reset_to t cfg s (pass (k, enabled, b))).0 ≡ s' = rw (reset_to, done) refl in
        (k, enabled, b, refl, done ∙ ap some (sym state), ground arith)
  ]

  -- Where no part of the key is empty, `Query` reads the row.
  query_at :
      (s : S) (app_id subject_id scope_type scope_id : Text) {k : Key} (r : Row)
      → app_id ≢ []
      → check_scope app_id subject_id scope_type scope_id ≡ pass k
      → t.select s k ≡ r
      → query t cfg s k ≡ read_row cfg r
  unfolding query
  query_at s app_id subject_id scope_type scope_id {k} r some_app scope there =
      let key = check_scope_key app_id subject_id scope_type scope_id scope in
      let given = check_scope_inv app_id subject_id scope_type scope_id scope in
      let full : (is_empty k.app_id
            || is_empty k.subject_id
            || is_empty k.scope_type
            || is_empty k.scope_id)
          ≡ false =
        rw key (ground arith) in
      rw (full, there) refl

  get_at :
      (s : S) (app_id subject_id scope_type scope_id : Text) {k : Key} (c : LocalAsrConfig)
      → check_scope app_id subject_id scope_type scope_id ≡ pass k
      → query t cfg s k ≡ some c
      → get t cfg s app_id subject_id scope_type scope_id ≡ pass c
  unfolding get answer_config
  get_at s app_id subject_id scope_type scope_id c scope e = rw scope (ap answer_config e)

  -- What Reset answers is what Get answers behind it for the same scope: the server's defaults with
  -- the given switch.
  pub get-reset :
      (laws : IsTable t) (s : S) (app_id : Text) (b : Body) {c : LocalAsrConfig}
      → app_id ≢ []
      → (reset t cfg s app_id (some b)).1 ≡ pass c
      → get t cfg (reset t cfg s app_id (some b)).0 app_id b.subject_id b.scope_type b.scope_id
        ≡ pass c
  unfolding reset read_row effective default_config
  get-reset laws s app_id b some_app h =
      let (k, enabled, b', fine, done, is) = reset_to_inv s (check_body app_id (some b)) h in
      let s' = (reset t cfg s app_id (some b)).0 in
      let scope = check_body_scope app_id b fine in
      let (old, _, made) = laws.select_upsert s s' (reset_of k enabled) done in
      let written = made ∙ ap row (outcome-reset_of k enabled old) in
      let answer : LocalAsrConfig = record (default_config cfg) { enabled = enabled } in
      let read : query t cfg s' k
          ≡ some (record (default_config cfg) { enabled = is_one (tinyint enabled) }) =
        query_at s' app_id b.subject_id b.scope_type b.scope_id _ some_app scope written in
      rw is (
        get_at s' app_id b.subject_id b.scope_type b.scope_id answer scope
          (rw is_one-tinyint at read))

  save_inv :
      (s : S) (m : Outcome (Key × Given)) {u : Unit {0}}
      → (save t cfg s m).1 ≡ pass u
      → (k : Key) × (g : Given) × (m ≡ pass (k, g))
        × (t.upsert s (upsert_of k g) ≡ some (save t cfg s m).0)
  unfolding save
  save_inv s (abort r) h = absurd (ground arith)
  save_inv s (pass (k, g)) h = elim (Option-cases (t.upsert s (upsert_of k g))) [
    | inl error ↦ absurd (ground arith)
    | inr (s', done) ↦
        let state : (save t cfg s (pass (k, g))).0 ≡ s' = rw (save, done) refl in
        (k, g, refl, done ∙ ap some (sym state))
  ]

  pub check_put_inv :
      (parse : Text → Option (Text × Text)) (app_id : Text) (b : Body) {k : Key} {g : Given}
      → check_put t cfg parse app_id (some b) ≡ pass (k, g)
      → (check_scope app_id b.subject_id b.scope_type b.scope_id ≡ pass k)
        × (b.enabled ≡ some g.enabled)
        × (g.timeout_ms ≡ b.timeout_ms)
        × (g.probe_url ≡ b.probe_url)
        × (g.transcribe_url ≡ b.transcribe_url)
  unfolding check_put
  check_put_inv parse app_id b {k} {g} h = pass_parts (check_body app_id (some b)) _ h λ x body h1.
      pass_parts (guard (timeout_ok x.2.timeout_ms) _) _ h1 λ _ _ h2.
        pass_parts (check_url parse probe_message x.2.probe_url) _ h2 λ _ _ h3.
          pass_parts (check_url parse transcribe_message x.2.transcribe_url) _ h3 λ _ _ h4.
            let scope = check_body_scope app_id b body in
            let (switch, same) = check_body_given app_id b body in
            let at : x.0 ≡ k = ground arith in
            (scope ∙ ap pass at, ground arith, ground arith, ground arith, ground arith)

  -- Behind a Put that succeeds, for an application whose identifier is not empty, Get answers for
  -- the same scope what the body gave: the switch, and each setting that it holds. The table has to
  -- carry the statements out the way MySQL does.
  pub get-put_given :
      (laws : IsTable t) (parse : Text → Option (Text × Text)) (s : S) (app_id : Text) (b : Body)
      → app_id ≢ []
      → (put t cfg parse s app_id (some b)).1 ≡ pass tt
      → (c : LocalAsrConfig) × (get t cfg
            (put t cfg parse s app_id (some b)).0
            app_id
            b.subject_id
            b.scope_type
            b.scope_id
          ≡ pass c)
        × (b.enabled ≡ some c.enabled)
        × (or_default c.timeout_ms b.timeout_ms ≡ c.timeout_ms)
        × (or_default c.probe_url b.probe_url ≡ c.probe_url)
        × (or_default c.transcribe_url b.transcribe_url ≡ c.transcribe_url)
  unfolding put read_row effective default_config
  get-put_given laws parse s app_id b some_app h =
      let (k, g, fine, done) = save_inv s (check_put t cfg parse app_id (some b)) h in
      let s' = (put t cfg parse s app_id (some b)).0 in
      let (scope, switch, timeout, probe, url) = check_put_inv parse app_id b fine in
      let (old, _, made) = laws.select_upsert s s' (upsert_of k g) done in
      let written =
        made
        ∙ ap row (outcome-upsert_of k g.enabled g.timeout_ms g.probe_url g.transcribe_url old) in
      let read = query_at s' app_id b.subject_id b.scope_type b.scope_id _ some_app scope written in
      (
        _,
        get_at s' app_id b.subject_id b.scope_type b.scope_id _ scope read,
        switch ∙ ap some (sym (is_one-tinyint g.enabled)),
        given_wins cfg.local_timeout_ms g.timeout_ms _ b.timeout_ms timeout,
        given_wins cfg.local_probe_url g.probe_url _ b.probe_url probe,
        given_wins cfg.local_transcribe_url g.transcribe_url _ b.transcribe_url url,
      )
