-- ===== src/Admin/Apps/Contract/Steps.antt =====
-- The last steps of the handlers, on what the store answered.
use octo_speech.Prelude.{
  ℕ, ◌≡◌, refl, sym, ◌∙◌, ◌⊎◌, inl, inr, Bool, true, false, Option, some, none, Text, codes,
  trim_space, String, arith, Bool-cases, Option-cases,
}
use octo_speech.Prelude.Int.{ℤ, pos}
use octo_speech.Admin.KeyGen.{is_valid_app_id}
use octo_speech.Store.App.{StoreError, app_not_found, exec_failed, invalidate_cache}
use octo_speech.Store.Rows.{AuditRow, Tables, add_app, add_audit, find_app, eq_ℤ}
use octo_speech.Store.Rows.Find.{eq_ℤ→eq}
use octo_speech.Store.Registry.{Database, IsDatabase, Server, get_by_app_id, log}
use octo_speech.Store.Registry.Contract.{Settles, without}
use octo_speech.Admin.Apps.{
  Command, create_app, delete_app, Done, name_of, audit, create_done, finish, delete_done, bad_name,
  bad_status,
}
use octo_speech.Admin.Apps.Contract.{entry, Named, Requested, Describes, store_after, Performs}

pub bad_status-cases : (new : ℤ) → bad_status new ≡ false → (new ≡ pos 0) ⊎ (new ≡ pos 1)
unfolding bad_status
bad_status-cases new h = elim (Bool-cases (eq_ℤ new (pos 0))) [
  | inl off ↦ inl (eq_ℤ→eq new (pos 0) off)
  | inr on ↦ inr (eq_ℤ→eq new (pos 1) (ground arith))
]

abbrev Recorded : (d : Database) → Tables → AuditRow → d.State → Type 0
Recorded d t e s =
    (d.tables s ≡ add_audit e t)
    ⊎ ((d.tables s ≡ t) × (u : d.State) × ((d.insert_audit u e).1 ≡ false))

module _ (d : Database) (hash : Text → Text) (laws : IsDatabase d) where
  -- The tables behind the attempt to log.
  audit-Recorded :
      (action id name operator : Text) (s : Server d)
      → Recorded d
          (d.tables s.db)
          (entry action id name operator)
          (audit d hash action id name operator s).db
  unfolding audit log
  audit-Recorded action id name operator s =
      elim (Bool-cases (d.insert_audit s.db (entry action id name operator)).1) [
        | inl written ↦ inl (laws.audit_inserted s.db _ written)
        | inr failed ↦ elim (laws.audit_not_inserted s.db (entry action id name operator)) [
          | inl same ↦ inr (same, s.db, failed)
          | inr made ↦ inl made
        ]
      ]

  audit-store :
      (action id name operator : Text) (s : Server d)
      → (audit d hash action id name operator s).store ≡ s.store
  unfolding audit
  audit-store action id name operator s = refl

  pub get_by_app_id-Named :
      (s : Server d) (id : Text)
      → Named d.same (d.tables s.db).apps id (name_of (get_by_app_id d s id))
  unfolding get_by_app_id
  get_by_app_id-Named s id = elim (laws.app_answer s.db id) [
    | inl failed ↦ rw (name_of, failed) (inl refl)
    | inr answered ↦ elim (Option-cases (find_app d.same id (d.tables s.db).apps)) [
      | inl missing ↦ rw (name_of, answered, missing) (inl refl)
      | inr (app, there) ↦ rw (name_of, answered, there) (inr (app, refl, refl))
    ]
  ]

  pub create_done-Performs :
      (r s : Server d) (operator time raw id key : Text) (ok : Bool)
      → bad_name (trim_space raw) ≡ false
      → s.store ≡ r.store
      → (ok ≡ true
          → (n now : ℕ) × (d.tables s.db
              ≡ add_app n now id (trim_space raw) (hash key) (d.tables r.db)))
      → (d.tables s.db ≡ d.tables r.db)
        ⊎ ((n now : ℕ) × (d.tables s.db
              ≡ add_app n now id (trim_space raw) (hash key) (d.tables r.db)))
      → Performs d hash r operator
          (create_app (some raw))
          (create_done d hash operator time id (trim_space raw) key (s, ok))
  unfolding create_done
  create_done-Performs r s operator time raw id key false good store made (inl same) =
      (store, inl same)
  create_done-Performs r s operator time raw id key false good store made (inr (n, now, e)) =
      (store, inr (refl, (n, now, id, key, e)))
  create_done-Performs r s operator time raw id key true good store made either =
      let (n, now, e) = made refl in
      (
        audit-store (codes "create") id (trim_space raw) operator s ∙ store,
        (
          d.tables s.db,
          entry (codes "create") id (trim_space raw) operator,
          (n, now, e, refl, good, refl),
          audit-Recorded (codes "create") id (trim_space raw) operator s,
        ),
      )

  pub finish-Performs :
      (r : Server d) (operator action id : Text) (msg : String) (done : Done) (command : Command)
      (Q : Tables → Type 0) (p : Server d × Option StoreError)
      → Settles d r Q p
      → ((t : Tables) → Q t → Requested d hash r command t)
      → store_after d hash command r.store ≡ invalidate_cache r.store
      → ((s : Server d)
          → Q (d.tables s.db)
          → Describes d hash r operator command done
              (d.tables s.db)
              (entry action id (name_of (get_by_app_id d s id)) operator))
      → Performs d hash r operator command (finish d hash operator action id msg done p)
  unfolding finish
  finish-Performs r operator action id msg done command Q (s, none) h weaken cache describe =
      let name = name_of (get_by_app_id d s id) in
      (
        audit-store action id name operator s ∙ h.1 ∙ sym cache,
        (
          d.tables s.db,
          entry action id name operator,
          describe s h.0,
          audit-Recorded action id name operator s,
        ),
      )
  finish-Performs r operator action id msg done command Q (s, some app_not_found) h weaken cache
        describe =
      (h.1, inl h.0)
  finish-Performs r operator action id msg done command Q (s, some exec_failed) (inl same, store)
        weaken cache describe =
      (store, inl same)
  finish-Performs r operator action id msg done command Q (s, some exec_failed) (inr made, store)
        weaken cache describe =
      (store, inr (refl, weaken (d.tables s.db) made))

  pub delete_done-Performs :
      (r : Server d) (operator id : Text) (p : Server d × Option StoreError)
      → is_valid_app_id id ≡ true
      → Settles d r (λ t. t ≡ without d.same id (d.tables r.db)) p
      → Performs d hash r operator
          (delete_app id)
          (delete_done d hash operator id (name_of (get_by_app_id d r id)) p)
  unfolding delete_done
  delete_done-Performs r operator id (s, none) good h =
      let name = name_of (get_by_app_id d r id) in
      (
        audit-store (codes "delete") id name operator s ∙ h.1,
        (
          d.tables s.db,
          entry (codes "delete") id name operator,
          (name, h.0, good, refl, get_by_app_id-Named r id),
          audit-Recorded (codes "delete") id name operator s,
        ),
      )
  delete_done-Performs r operator id (s, some app_not_found) good h = (h.1, inl h.0)
  delete_done-Performs r operator id (s, some exec_failed) good (inl same, store) =
      (store, inl same)
  delete_done-Performs r operator id (s, some exec_failed) good (inr made, store) =
      (store, inr (refl, made))
