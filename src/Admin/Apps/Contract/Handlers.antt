-- ===== src/Admin/Apps/Contract/Handlers.antt =====
-- Each handler keeps the contract.
use octo_speech.Prelude.{
  ◌≡◌, refl, inl, inr, true, false, Option, some, none, Text, codes, trim_space, Bool-cases,
}
use octo_speech.Prelude.Int.{ℤ}
use octo_speech.Admin.KeyGen.{generate_app_id, generate_api_key, is_valid_app_id}
use octo_speech.Store.Registry.{
  Database, IsDatabase, Server, create, update_status, update_api_key, delete,
}
use octo_speech.Store.Registry.Contract.{
  StatusSet, KeySet, update_status-Settles, update_api_key-Settles, delete-Settles,
}
use octo_speech.Admin.Apps.{
  Command, create_app, set_status, delete_app, reset_key, updated, key_reset, Chance, status_action,
  create_with, create_handler, status_handler, delete_handler, reset_with, reset_handler, perform,
  bad_name, bad_status,
}
use octo_speech.Admin.Apps.Contract.{Performs}
use octo_speech.Admin.Apps.Contract.Steps.{
  bad_status-cases, get_by_app_id-Named, create_done-Performs, finish-Performs,
  delete_done-Performs,
}

module _ (d : Database) (hash : Text → Text) (laws : IsDatabase d) where
  create_with-Performs :
      (r : Server d) (operator time raw : Text) (id key : Option Text)
      → bad_name (trim_space raw) ≡ false
      → Performs d hash r operator
          (create_app (some raw))
          (create_with d hash operator time (trim_space raw) r id key)
  unfolding create_with create
  create_with-Performs r operator time raw none key good = (refl, inl refl)
  create_with-Performs r operator time raw (some id) none good = (refl, inl refl)
  create_with-Performs r operator time raw (some id) (some key) good =
      create_done-Performs d hash laws r (create d r id (trim_space raw) (hash key)).0 operator time
        raw id key (create d r id (trim_space raw) (hash key)).1 good refl
        (laws.inserted r.db id (trim_space raw) (hash key))
        (laws.not_inserted r.db id (trim_space raw) (hash key))

  create_handler-Performs :
      (r : Server d) (operator : Text) (c : Chance) (body : Option Text)
      → Performs d hash r operator (create_app body) (create_handler d hash operator c body r)
  unfolding create_handler
  create_handler-Performs r operator c none = (refl, inl refl)
  create_handler-Performs r operator c (some raw) = elim (Bool-cases (bad_name (trim_space raw))) [
    | inl bad ↦ rw bad (refl, inl refl)
    | inr good ↦ rw good (
        create_with-Performs r operator c.now raw (generate_app_id c.id_draw)
          (generate_api_key c.key_draw) good)
  ]

  status_handler-Performs :
      (r : Server d) (operator id : Text) (body : Option ℤ)
      → Performs d hash r operator (set_status id body) (status_handler d hash operator id body r)
  unfolding status_handler
  status_handler-Performs r operator id none = elim (Bool-cases (is_valid_app_id id)) [
    | inl good ↦ rw good (refl, inl refl)
    | inr bad ↦ rw bad (refl, inl refl)
  ]
  status_handler-Performs r operator id (some new) = elim (Bool-cases (is_valid_app_id id)) [
    | inl good ↦ elim (Bool-cases (bad_status new)) [
      | inl neither ↦ rw (good, neither) (refl, inl refl)
      | inr one ↦
          rw (good, one)
            (finish-Performs d hash laws r operator (status_action new) id _ updated
              (set_status id (some new)) (StatusSet d r id new) (update_status d r id new)
              (update_status-Settles d laws r id new) (λ t h. h) refl
              (λ s h.
                (_, h, good, bad_status-cases new one, refl, get_by_app_id-Named d hash laws s id)))
    ]
    | inr bad ↦ rw bad (refl, inl refl)
  ]

  delete_handler-Performs :
      (r : Server d) (operator id : Text)
      → Performs d hash r operator (delete_app id) (delete_handler d hash operator id r)
  unfolding delete_handler
  delete_handler-Performs r operator id = elim (Bool-cases (is_valid_app_id id)) [
    | inl good ↦ rw good (
        delete_done-Performs d hash laws r operator id (delete d r id) good
          (delete-Settles d r id laws))
    | inr bad ↦ rw bad (refl, inl refl)
  ]

  reset_with-Performs :
      (r : Server d) (operator id : Text) (key : Option Text)
      → is_valid_app_id id ≡ true
      → Performs d hash r operator (reset_key id) (reset_with d hash operator id r key)
  unfolding reset_with
  reset_with-Performs r operator id none good = (refl, inl refl)
  reset_with-Performs r operator id (some key) good =
      finish-Performs d hash laws r operator (codes "reset_key") id _ (key_reset key) (reset_key id)
        (KeySet d r id (hash key)) (update_api_key d r id (hash key))
        (update_api_key-Settles d laws r id (hash key)) (λ t h. (key, h)) refl
        (λ s h. (_, h, good, refl, get_by_app_id-Named d hash laws s id))

  reset_handler-Performs :
      (r : Server d) (operator : Text) (c : Chance) (id : Text)
      → Performs d hash r operator (reset_key id) (reset_handler d hash operator c id r)
  unfolding reset_handler
  reset_handler-Performs r operator c id = elim (Bool-cases (is_valid_app_id id)) [
    | inl good ↦ rw good (reset_with-Performs r operator id (generate_api_key c.key_draw) good)
    | inr bad ↦ rw bad (refl, inl refl)
  ]

-- For every database that behaves as documented, each of the four handlers keeps the contract
-- `Performs`. A refusal leaves the tables and the cache alone, except that behind status 500 the
-- requested change may have been made as a whole, with no audit entry. An answer of success has
-- made the requested change, on checked input, and added exactly one audit entry, with the action,
-- the identifier and the operator, unless the database reported an error for the entry.
pub perform-Performs :
    (d : Database) (hash : Text → Text) (operator : Text) (c : Chance) (command : Command)
    (r : Server d)
    → IsDatabase d
    → Performs d hash r operator command (perform d hash operator c command r)
unfolding perform
perform-Performs d hash operator c (create_app body) r laws =
    create_handler-Performs d hash laws r operator c body
perform-Performs d hash operator c (set_status id body) r laws =
    status_handler-Performs d hash laws r operator id body
perform-Performs d hash operator c (delete_app id) r laws =
    delete_handler-Performs d hash laws r operator id
perform-Performs d hash operator c (reset_key id) r laws =
    reset_handler-Performs d hash laws r operator c id
