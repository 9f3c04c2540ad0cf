-- ===== src/Service/Replacer.antt =====
-- strings.NewReplacer(pairs...).Replace(s): at each place the first pair whose key stands there is
-- replaced, and the text behind the key goes on.
use octo_speech.Prelude.{
  ℕ, zero, suc, ◌-◌, ◌≡◌, refl, false, List, [], ◌∷◌, ◌++◌, Text, has_prefix, contains, length,
  Option, some, none, if◌then◌else◌, arith, Bool-cases, Option-cases, ap, inl, inr,
}

unfoldable pub find_key : List (Text × Text) → Text → Option (Text × Text)
find_key [] s = none
find_key ((key, value) ∷ pairs) s = if has_prefix s key then some (key, value) else find_key pairs s

-- `skip` counts the characters of a replaced key that are still to be passed over.
unfoldable pub replace_from : List (Text × Text) → ℕ → Text → Text
replace_from pairs skip [] = []
replace_from pairs (suc skip) (c ∷ s) = replace_from pairs skip s
replace_from pairs zero (c ∷ s) = elim (find_key pairs (c ∷ s)) [
  | none ↦ c ∷ replace_from pairs zero s
  | some (key, value) ↦ value ++ replace_from pairs (length key - 1) s
]

-- The keys that a template holds, with their values.
unfoldable pub held : Text → List (Text × Text) → List (Text × Text)
held tmpl [] = []
held tmpl ((key, value) ∷ pairs) =
    if contains tmpl key then (key, value) ∷ held tmpl pairs else held tmpl pairs

-- A text that ends `tmpl`.
data IsEnd (tmpl : Text) : Text → Type 0 where
  whole : IsEnd tmpl tmpl
  later : {c : ℕ} {s : Text} → IsEnd tmpl (c ∷ s) → IsEnd tmpl s

contains-end :
    {tmpl s : Text} (key : Text) → IsEnd tmpl s → contains tmpl key ≡ false → contains s key ≡ false
unfolding contains
contains-end key whole h = h
contains-end key (later e) h = ground (arith, contains-end key e h)

has_prefix→contains :
    (c : ℕ) (s key : Text) → contains (c ∷ s) key ≡ false → has_prefix (c ∷ s) key ≡ false
unfolding contains
has_prefix→contains c s key h = ground arith

find_key-held :
    (tmpl : Text) (pairs : List (Text × Text)) (c : ℕ) (s : Text)
    → IsEnd tmpl (c ∷ s)
    → find_key (held tmpl pairs) (c ∷ s) ≡ find_key pairs (c ∷ s)
unfolding find_key held
find_key-held tmpl [] c s e = refl
find_key-held tmpl ((key, value) ∷ pairs) c s e = elim (Bool-cases (contains tmpl key)) [
  | inl here ↦ rw (here, find_key-held tmpl pairs c s e)
  | inr absent ↦
      rw (absent, has_prefix→contains c s key (contains-end key e absent))
        (find_key-held tmpl pairs c s e)
]

replace_from-held :
    (tmpl : Text) (pairs : List (Text × Text)) (skip : ℕ) (s : Text)
    → IsEnd tmpl s
    → replace_from (held tmpl pairs) skip s ≡ replace_from pairs skip s
unfolding replace_from
replace_from-held tmpl pairs skip [] e = refl
replace_from-held tmpl pairs (suc skip) (c ∷ s) e = replace_from-held tmpl pairs skip s (later e)
replace_from-held tmpl pairs zero (c ∷ s) e =
    let same = find_key-held tmpl pairs c s e in
    elim (Option-cases (find_key pairs (c ∷ s))) [
      | inl plain ↦
          rw (same, plain, replace_from)
            (ap (◌∷◌ c) (replace_from-held tmpl pairs zero s (later e)))
      | inr ((key, value), found) ↦
          rw (same, found, replace_from)
            (ap (λ t. value ++ t) (replace_from-held tmpl pairs (length key - 1) s (later e)))
    ]

-- Leaving out the keys that the template does not hold makes no difference.
pub replace-held :
    (tmpl : Text) (pairs : List (Text × Text))
    → replace_from (held tmpl pairs) 0 tmpl ≡ replace_from pairs 0 tmpl
replace-held tmpl pairs = replace_from-held tmpl pairs 0 tmpl whole
