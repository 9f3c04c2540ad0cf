-- ===== src/Admin/Apps/Audited.antt =====
-- The audit log of the admin service, from the guards to the tables.
use octo_speech.Prelude.{
  ◌≡◌, refl, ap, ◌∙◌, ◌⊎◌, inl, inr, Option, some, none, [], ◌∷◌, ◌++◌, Text, List,
}
use octo_speech.Prelude.Http.{Reply, Outcome, abort, pass, Outcome-cases}
use octo_speech.Admin.Session.{Request, protected}
use octo_speech.Store.Rows.{
  AuditRow, Tables, add_app, add_audit, with_status, with_key, without_configs, without_profiles,
  without_apps,
}
use octo_speech.Store.Registry.{Database, IsDatabase, Server}
use octo_speech.Store.Registry.Contract.{without}
use octo_speech.Admin.Apps.{
  Command, create_app, set_status, delete_app, reset_key, Done, created, updated, deleted,
  key_reset, Chance, serve, serve_as,
}
use octo_speech.Admin.Apps.Contract.{Requested, Describes, Performs}
use octo_speech.Admin.Apps.Contract.Handlers.{perform-Performs}

module _ (d : Database) (hash : Text → Text) (r : Server d) where
  -- The requested changes leave the log alone.
  Requested-audits :
      (command : Command) (t : Tables)
      → Requested d hash r command t
      → t.audits ≡ (d.tables r.db).audits
  unfolding add_app with_status with_key without without_apps without_profiles without_configs
  Requested-audits (create_app none) t h = absurd h
  Requested-audits (create_app (some name)) t (n, now, id, key, e) = ap (λ (t : Tables). t.audits) e
  Requested-audits (set_status id none) t h = absurd h
  Requested-audits (set_status id (some new)) t (now, e) = ap (λ (t : Tables). t.audits) e
  Requested-audits (delete_app id) t e = ap (λ (t : Tables). t.audits) e
  Requested-audits (reset_key id) t (key, (now, e)) = ap (λ (t : Tables). t.audits) e

  -- An answer of success has made what was requested, and its entry names the operator.
  pub Describes-Requested :
      (operator : Text) (command : Command) (done : Done) (t : Tables) (e : AuditRow)
      → Describes d hash r operator command done t e
      → Requested d hash r command t × (e.operator ≡ operator)
  Describes-Requested operator (create_app (some raw)) (created id name key time) t e
        (n, now, made, trimmed, good, entry) =
      ((n, now, id, key, rw (← trimmed) made), ap (λ (e : AuditRow). e.operator) entry)
  Describes-Requested operator (set_status id (some new)) updated t e
        (name, made, valid, one, entry, named) =
      (made, ap (λ (e : AuditRow). e.operator) entry)
  Describes-Requested operator (delete_app id) deleted t e (name, made, valid, entry, named) =
      (made, ap (λ (e : AuditRow). e.operator) entry)
  Describes-Requested operator (reset_key id) (key_reset key) t e
        (name, made, valid, entry, named) =
      ((key, made), ap (λ (e : AuditRow). e.operator) entry)
  Describes-Requested operator (create_app none) done t e h = absurd h
  Describes-Requested operator (set_status id none) done t e h = absurd h
  Describes-Requested operator (create_app (some raw)) updated t e h = absurd h
  Describes-Requested operator (create_app (some raw)) deleted t e h = absurd h
  Describes-Requested operator (create_app (some raw)) (key_reset key) t e h = absurd h
  Describes-Requested operator (set_status id (some new)) (created i n k w) t e h = absurd h
  Describes-Requested operator (set_status id (some new)) deleted t e h = absurd h
  Describes-Requested operator (set_status id (some new)) (key_reset key) t e h = absurd h
  Describes-Requested operator (delete_app id) (created i n k w) t e h = absurd h
  Describes-Requested operator (delete_app id) updated t e h = absurd h
  Describes-Requested operator (delete_app id) (key_reset key) t e h = absurd h
  Describes-Requested operator (reset_key id) (created i n k w) t e h = absurd h
  Describes-Requested operator (reset_key id) updated t e h = absurd h
  Describes-Requested operator (reset_key id) deleted t e h = absurd h

  -- The log behind a handler: as before, or with one entry of the operator.
  abbrev pub Logs : Text → Server d × Outcome Done → Type 0
  Logs operator p =
      ((d.tables p.0.db).audits ≡ (d.tables r.db).audits)
      ⊎ ((done : Done) × (e : AuditRow) × (p.1 ≡ pass done)
          × ((d.tables p.0.db).audits ≡ (d.tables r.db).audits ++ e ∷ [])
          × (e.operator ≡ operator))

  Performs-Logs :
      (operator : Text) (command : Command) (p : Server d × Outcome Done)
      → Performs d hash r operator command p
      → Logs operator p
  unfolding add_audit
  Performs-Logs operator command (s, abort refusal) (store, inl same) =
      inl (ap (λ (t : Tables). t.audits) same)
  Performs-Logs operator command (s, abort refusal) (store, inr (_, made)) =
      inl (Requested-audits command (d.tables s.db) made)
  Performs-Logs operator command (s, pass done) (store, (t, e, described, inl written)) =
      let (made, by) = Describes-Requested operator command done t e described in
      inr (
        done,
        e,
        refl,
        ap (λ (t : Tables). t.audits) written
            ∙ ap (λ (l : List AuditRow). l ++ e ∷ []) (Requested-audits command t made),
        by,
      )
  Performs-Logs operator command (s, pass done) (store, (t, e, described, inr (same, _, _))) =
      let (made, by) = Describes-Requested operator command done t e described in
      inl (ap (λ (t : Tables). t.audits) same ∙ Requested-audits command t made)

-- A request to a route that writes leaves the audit log as it was, or adds exactly one entry to its
-- end. It adds one only if the request passed the guards, is answered with success, and the entry
-- names the user that the session token verifies for. A request that the guards refuse changes
-- nothing at all.
pub serve-Logs :
    (d : Database) (hash : Text → Text) (verify : Text → Text → Option Text) (secret : Text)
    (c : Chance) (request : Request) (command : Command) (r : Server d)
    → IsDatabase d
    → ((refusal : Reply) × (protected verify secret request ≡ abort refusal)
        × (serve d hash verify secret c request command r ≡ (r, abort refusal)))
      ⊎ ((operator : Text) × (protected verify secret request ≡ pass operator)
          × Logs d hash r operator (serve d hash verify secret c request command r))
unfolding serve serve_as
serve-Logs d hash verify secret c request command r laws =
    elim (Outcome-cases (protected verify secret request)) [
      | inl (refusal, e) ↦ inl (refusal, e, rw e refl)
      | inr (operator, e) ↦ inr (
        operator,
        e,
        rw e (
            Performs-Logs d hash r operator command _
              (perform-Performs d hash operator c command r laws)),
      )
    ]
