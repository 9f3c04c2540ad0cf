-- ===== src/Config/Dsn/Parameters.antt =====
-- The parameters of a data source name, as the driver means them: which of them spell parseTime, and
-- whether loc is among them.
use octo_speech.Prelude.{
  ℕ, ◌+◌, ◌≡◌, refl, ap, ◌∙◌, ◌⊎◌, ◌↔◌, Bool, true, not, some, List, [], ◌∷◌, ◌++◌, Text, codes,
  text_eq, text_eq→eq, text_eq_refl, map, keep, leb, ◌==◌, ==_iff, ◌&&◌, arith, Bool-cases,
  Option-cases, inl, inr, In, here, there,
}
use octo_speech.Config.Dsn.{
  after_byte, split, before_byte, has_key, dsn_has_param, fold, is_parse_time,
}

-- A text that spells a word of small letters in whatever case, with the long s for an s.
abbrev pub Spells : Text → Text → Type 0
Spells [] [] = Unit
Spells [] (l ∷ word) = ⊥
Spells (c ∷ s) [] = ⊥
Spells (c ∷ s) (l ∷ word) = ((c ≡ l) ⊎ (c + 32 ≡ l) ⊎ ((c ≡ 0x17f) × (l ≡ b's'))) × Spells s word

abbrev pub SpellsParseTime : Text → Type 0
SpellsParseTime k = Spells k (codes "parsetime")

abbrev all_small : Text → Bool
all_small [] = true
all_small (l ∷ word) = (leb b'a' l && leb l b'z') && all_small word

fold_iff :
    (c l : ℕ)
    → (leb b'a' l && leb l b'z') ≡ true
    → ((fold c == l) ≡ true) ↔ ((c ≡ l) ⊎ (c + 32 ≡ l) ⊎ ((c ≡ 0x17f) × (l ≡ b's')))
unfolding fold
fold_iff c l h = (λ e. ground (arith, ==_iff (fold c) l), λ e. ground (arith, ==_iff (fold c) l))

Spells-iff :
    (k word : Text) → all_small word ≡ true → (text_eq (map fold k) word ≡ true) ↔ Spells k word
unfolding text_eq
Spells-iff [] [] small = (λ e. tt, λ e. refl)
Spells-iff [] (l ∷ word) small = (λ e. cc, λ e. absurd e)
Spells-iff (c ∷ k) [] small = (λ e. cc, λ e. absurd e)
Spells-iff (c ∷ k) (l ∷ word) small =
    let one = fold_iff c l (ground arith) in
    let more = Spells-iff k word (ground arith) in
    (
      λ e. (one.0 (ground arith), more.0 (ground arith)),
      λ (at, rest). let a = one.1 at in let b = more.1 rest in ground arith,
    )

is_parse_time_iff : (k : Text) → (is_parse_time k ≡ true) ↔ SpellsParseTime k
unfolding is_parse_time
is_parse_time_iff k = Spells-iff k (codes "parsetime") refl

-- The second list is the first one without the parameters that spell parseTime, in order.
abbrev pub Without : List (Text × Text) → List (Text × Text) → Type 0
Without [] q = q ≡ []
Without (e ∷ p) q =
    (SpellsParseTime e.0 × Without p q)
    ⊎ ((¬ SpellsParseTime e.0) × ((rest : List (Text × Text)) × (q ≡ e ∷ rest) × Without p rest))

pub Without-keep :
    (params : List (Text × Text)) → Without params (keep (λ p. not (is_parse_time p.0)) params)
unfolding keep
Without-keep [] = refl
Without-keep (e ∷ params) = elim (Bool-cases (is_parse_time e.0)) [
  | inl spelled ↦ rw spelled (inl ((is_parse_time_iff e.0).0 spelled, Without-keep params))
  | inr other ↦ rw other (
      inr (
        (λ s. let t = (is_parse_time_iff e.0).1 s in ground arith),
        (_, refl, Without-keep params),
      ))
]

-- A piece of the parameters that gives loc, with or without a value.
abbrev pub IsLoc : Text → Type 0
IsLoc piece = (piece ≡ codes "loc") ⊎ ((value : Text) × (piece ≡ codes "loc" ++ b'=' ∷ value))

-- Behind the first "?" there is such a piece between the "&".
abbrev pub GivesLoc : Text → Type 0
GivesLoc dsn =
    (params piece : Text) × (after_byte b'?' dsn ≡ some params)
    × In piece (split b'&' params)
    × IsLoc piece

before_byte_parts :
    (b : ℕ) (p : Text)
    → (p ≡ before_byte b p) ⊎ ((value : Text) × (p ≡ before_byte b p ++ b ∷ value))
unfolding before_byte
before_byte_parts b [] = inl refl
before_byte_parts b (c ∷ p) = elim (Bool-cases (c == b)) [
  | inl same ↦ let at = (==_iff c b).0 same in rw same (inr (p, rw at refl))
  | inr other ↦ rw other (elim (before_byte_parts b p) [
    | inl whole ↦ inl (ap (λ s. c ∷ s) whole)
    | inr (value, e) ↦ inr (value, ap (λ s. c ∷ s) e)
  ])
]

before_byte-IsLoc :
    (piece : Text) → (text_eq (before_byte b'=' piece) (codes "loc") ≡ true) ↔ IsLoc piece
unfolding before_byte
before_byte-IsLoc piece = (
  λ e.
      let name = text_eq→eq (before_byte b'=' piece) (codes "loc") e in
      elim (before_byte_parts b'=' piece) [
        | inl whole ↦ inl (whole ∙ name)
        | inr (value, at) ↦ inr (value, at ∙ ap (λ s. s ++ b'=' ∷ value) name)
      ],
  λ given. elim given [
    | inl e ↦ rw e (text_eq_refl (codes "loc"))
    | inr (value, e) ↦ rw e (text_eq_refl (codes "loc"))
  ],
)

has_key_inv :
    (ps : List Text) → has_key (codes "loc") ps ≡ true → (piece : Text) × In piece ps × IsLoc piece
unfolding has_key
has_key_inv [] e = cc
has_key_inv (p ∷ ps) e = elim (Bool-cases (text_eq (before_byte b'=' p) (codes "loc"))) [
  | inl same ↦ (p, here, (before_byte-IsLoc p).0 same)
  | inr other ↦ let (piece, at, is) = has_key_inv ps (ground arith) in (piece, there at, is)
]

In-has_key :
    (ps : List Text) (piece : Text) → In piece ps → IsLoc piece → has_key (codes "loc") ps ≡ true
unfolding has_key
In-has_key [] piece at is = elim at [ ]
In-has_key (p ∷ ps) piece here is = let t = (before_byte-IsLoc p).1 is in ground arith
In-has_key (p ∷ ps) piece (there at) is = let t = In-has_key ps piece at is in ground arith

pub dsn_has_param-GivesLoc : (dsn : Text) → (dsn_has_param dsn (codes "loc") ≡ true) ↔ GivesLoc dsn
unfolding dsn_has_param
dsn_has_param-GivesLoc dsn = (
  λ e. elim (Option-cases (after_byte b'?' dsn)) [
    | inl no_params ↦ absurd (ground arith)
    | inr (params, at) ↦
        let (piece, in_it, is) = has_key_inv (split b'&' params) (ground arith) in
        (params, piece, at, in_it, is)
  ],
  λ (params, piece, at, in_it, is).
      rw (dsn_has_param, at) (In-has_key (split b'&' params) piece in_it is),
)
