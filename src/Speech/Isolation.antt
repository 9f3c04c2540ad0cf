-- ===== src/Speech/Isolation.antt =====
-- What the service answers one application behind the requests of others.
use octo_speech.Prelude.{◌≡◌, refl, ap, Bool, true, false, List, [], ◌∷◌, Text, codes, inl, inr}
use octo_speech.Prelude.Http.{Outcome-cases, pass}
use octo_speech.Store.App.{AuthResult}
use octo_speech.Store.Vocabulary.{IsTable}
use octo_speech.Store.LocalConfig.{HasOwnRows}
use octo_speech.Api.Auth.{auth_middleware}
use octo_speech.Api.Vocabulary.Tenants as Vocabularies
use octo_speech.Api.LocalConfig.Tenants as Locals
use octo_speech.Speech.{
  Request, get_config, post_transcribe, put_vocabularies, get_vocabularies, delete_vocabularies,
  put_local_config, get_local_config, delete_local_config, reset_local_config, State, Service,
  config, route, route_as, serve,
}

-- A request, its header, and what the store answers to a key when it comes.
pub record Visit : Type 0 where
  pub authenticate : Text → AuthResult
  pub header : Text
  pub request : Request

unfoldable pub serve_all : {V L : Type 0} → Service V L → State V L → List Visit → State V L
serve_all svc s [] = s
serve_all svc s (v ∷ vs) = serve_all svc (serve svc v.authenticate v.header s v.request).0 vs

-- The requests whose answer says something on what is stored, or asks for a transcription.
unfoldable pub is_read : Request → Bool
is_read (get_config q) = true
is_read (post_transcribe call form) = true
is_read (put_vocabularies body) = false
is_read (get_vocabularies q) = true
is_read (delete_vocabularies q) = false
is_read (put_local_config body) = false
is_read (get_local_config q) = true
is_read (delete_local_config q) = false
is_read (reset_local_config body) = false

-- If the visitor is let in, then as an application that the database takes neither for the reader
-- nor for the owner of the defaults.
abbrev pub IsOther : (Text → Text → Bool) → Text → Visit → Type 0
IsOther same_app reader v =
    (writer : Text)
    → auth_middleware v.authenticate v.header ≡ pass writer
    → (same_app writer reader ≡ false) × (same_app writer (codes "*") ≡ false)

pub data AllOther (same_app : Text → Text → Bool) (reader : Text) : List Visit → Type 0 where
  none_left : AllOther same_app reader []
  one_more :
      {v : Visit} {vs : List Visit}
      → IsOther same_app reader v
      → AllOther same_app reader vs
      → AllOther same_app reader (v ∷ vs)

module _ {V L : Type 0} (svc : Service V L) (reader : Text) where
  record IsKept (s s' : State V L) : Type 0 where
    vocabularies : Vocabularies.IsKept svc.vocabulary_table reader s.vocabularies s'.vocabularies
    locals : Locals.IsKept svc.local_table svc.cfg reader s.locals s'.locals

  IsKept-refl : (s : State V L) → IsKept s s
  IsKept-refl s = record {
    vocabularies = Vocabularies.IsKept-refl svc.vocabulary_table reader s.vocabularies;
    locals = Locals.IsKept-refl svc.local_table svc.cfg reader s.locals;
  }

  IsKept-trans : {s s' s'' : State V L} → IsKept s s' → IsKept s' s'' → IsKept s s''
  IsKept-trans first then' = record {
    vocabularies =
        Vocabularies.IsKept-trans svc.vocabulary_table reader first.vocabularies then'.vocabularies;
    locals = Locals.IsKept-trans svc.local_table svc.cfg reader first.locals then'.locals;
  }

  -- The answer goes by the reader's own rows and the defaults.
  route-IsKept :
      (s s' : State V L) (r : Request)
      → is_read r ≡ true
      → IsKept s s'
      → (route svc reader s' r).1 ≡ (route svc reader s r).1
  unfolding route is_read
  route-IsKept s s' (get_config q) h kept = ap config (
      Locals.handle_config-IsKept svc.local_table svc.cfg reader s.locals s'.locals _ refl
        kept.locals)
  route-IsKept s s' (post_transcribe call form) h kept = refl
  route-IsKept s s' (get_vocabularies q) h kept =
      rw
        (Vocabularies.get-IsKept svc.vocabulary_table reader svc.format_time s.vocabularies
          s'.vocabularies q kept.vocabularies)
        refl
  route-IsKept s s' (get_local_config q) h kept =
      rw
        (Locals.get-IsKept svc.local_table svc.cfg reader s.locals s'.locals q.subject_id
          q.scope_type q.scope_id kept.locals)
        refl
  route-IsKept s s' (put_vocabularies body) h kept = absurd (cc)
  route-IsKept s s' (delete_vocabularies q) h kept = absurd (cc)
  route-IsKept s s' (put_local_config body) h kept = absurd (cc)
  route-IsKept s s' (delete_local_config q) h kept = absurd (cc)
  route-IsKept s s' (reset_local_config body) h kept = absurd (cc)

module _ {V L : Type 0} (svc : Service V L) (laws : IsTable svc.vocabulary_table)
    (rows : HasOwnRows svc.local_table svc.vocabulary_table.same_app) (reader : Text) where
  route-keeps :
      (writer : Text) (s : State V L) (r : Request)
      → svc.vocabulary_table.same_app writer reader ≡ false
      → svc.vocabulary_table.same_app writer (codes "*") ≡ false
      → IsKept svc reader s (route svc writer s r).0
  unfolding route
  route-keeps writer s (get_config q) apart no_default = IsKept-refl svc reader s
  route-keeps writer s (post_transcribe call form) apart no_default = record {
    vocabularies = Vocabularies.IsKept-refl svc.vocabulary_table reader s.vocabularies;
    locals = Locals.IsKept-refl svc.local_table svc.cfg reader s.locals;
  }
  route-keeps writer s (put_vocabularies body) apart no_default = record {
    vocabularies =
        Vocabularies.put-IsKept svc.vocabulary_table laws writer reader apart no_default
          s.vocabularies body;
    locals = Locals.IsKept-refl svc.local_table svc.cfg reader s.locals;
  }
  route-keeps writer s (get_vocabularies q) apart no_default = IsKept-refl svc reader s
  route-keeps writer s (delete_vocabularies q) apart no_default = record {
    vocabularies =
        Vocabularies.delete-IsKept svc.vocabulary_table laws writer reader apart no_default
          s.vocabularies q;
    locals = Locals.IsKept-refl svc.local_table svc.cfg reader s.locals;
  }
  route-keeps writer s (put_local_config body) apart no_default = record {
    vocabularies = Vocabularies.IsKept-refl svc.vocabulary_table reader s.vocabularies;
    locals =
        Locals.put-IsKept svc.local_table svc.vocabulary_table.same_app rows svc.cfg writer reader
          apart svc.parse_url s.locals body;
  }
  route-keeps writer s (get_local_config q) apart no_default = IsKept-refl svc reader s
  route-keeps writer s (delete_local_config q) apart no_default = record {
    vocabularies = Vocabularies.IsKept-refl svc.vocabulary_table reader s.vocabularies;
    locals =
        Locals.delete-IsKept svc.local_table svc.vocabulary_table.same_app rows svc.cfg writer
          reader apart s.locals q.subject_id q.scope_type q.scope_id;
  }
  route-keeps writer s (reset_local_config body) apart no_default = record {
    vocabularies = Vocabularies.IsKept-refl svc.vocabulary_table reader s.vocabularies;
    locals =
        Locals.reset-IsKept svc.local_table svc.vocabulary_table.same_app rows svc.cfg writer reader
          apart s.locals body;
  }

  serve-keeps :
      (v : Visit) (s : State V L)
      → IsOther svc.vocabulary_table.same_app reader v
      → IsKept svc reader s (serve svc v.authenticate v.header s v.request).0
  unfolding serve route_as
  serve-keeps v s other = elim (Outcome-cases (auth_middleware v.authenticate v.header)) [
    | inl (refusal, e) ↦ rw e (IsKept-refl svc reader s)
    | inr (writer, e) ↦ rw e (route-keeps writer s v.request (other writer e).0 (other writer e).1)
  ]

  serve_all-keeps :
      (s : State V L) (vs : List Visit)
      → AllOther svc.vocabulary_table.same_app reader vs
      → IsKept svc reader s (serve_all svc s vs)
  unfolding serve_all
  serve_all-keeps s [] none_left = IsKept-refl svc reader s
  serve_all-keeps s (v ∷ vs) (one_more other others) =
      IsKept-trans svc reader (serve-keeps v s other)
        (serve_all-keeps (serve svc v.authenticate v.header s v.request).0 vs others)

  -- Whatever requests others make of the service, on all of its routes and with any header, an
  -- application that reads its vocabularies or its configurations, or asks for a transcription,
  -- gets the answer that it would have got before them, unless one of the others is let in as an
  -- application that the database takes for the reader or for the owner of the defaults, "*".
  pub serve-serve_all_other :
      (s : State V L) (vs : List Visit) (authenticate : Text → AuthResult) (header : Text)
      (r : Request)
      → AllOther svc.vocabulary_table.same_app reader vs
      → auth_middleware authenticate header ≡ pass reader
      → is_read r ≡ true
      → (serve svc authenticate header (serve_all svc s vs) r).1
        ≡ (serve svc authenticate header s r).1
  unfolding serve route_as
  serve-serve_all_other s vs authenticate header r others admitted h =
      rw admitted (route-IsKept svc reader s (serve_all svc s vs) r h (serve_all-keeps s vs others))
