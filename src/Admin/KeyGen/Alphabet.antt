-- ===== src/Admin/KeyGen/Alphabet.antt =====
-- Generated identifiers and keys.
use octo_speech.Prelude.{
  Bool-cases, ℕ, zero, suc, ◌+◌, ◌≡◌, refl, ap, ◌<◌, ◌≤◌, ◌↔◌, Bool, true, false, ◌&&◌, Option,
  some, none, [], ◌∷◌, ◌++◌, ◌==◌, ==_iff, length, All, ◌⊎◌, drop, Text, codes, has_prefix,
  has_prefix→append, arith, inl, inr, Option-cases,
}
use octo_speech.Admin.KeyGen.{
  base62, char_of, random_base62, generate_app_id, generate_api_key, rune_len, byte_length,
  is_alnum, all_alnum, is_valid_app_id,
}
use mathlib.Core.Option

-- The source answers every call, below 62, as `rand.Int(rand.Reader, 62)` does if it succeeds.
abbrev pub Draws : (ℕ → Option ℕ) → Type 0
Draws draw = (i : ℕ) → (k : ℕ) × (draw i ≡ some k) × (k < 62)

-- The place of a character in a text, its length if there is none.
place : ℕ → Text → ℕ
place c [] = 0
place c (d ∷ s) = elim (c == d) [ true ↦ 0 | false ↦ suc (place c s) ]

good : ℕ → Bool
good k = elim (char_of base62 k) [ none ↦ false | some c ↦ is_alnum c && (place c base62 == k) ]

-- Every index from `k` on, `n` of them.
good_run : (k n : ℕ) → Bool
good_run k zero = true
good_run k (suc n) = good k && good_run (suc k) n

good_run_at : (k n i : ℕ) → k ≤ i → i < k + n → good_run k n ≡ true → good i ≡ true
unfolding good_run
good_run_at k zero i low high run = absurd (omega arith)
good_run_at k (suc n) i low high run = elim (Bool-cases (i == k)) [
  | inl first ↦ ground (arith, ==_iff i k)
  | inr more ↦ good_run_at (suc k) n i (ground (arith, ==_iff i k)) (omega arith) (ground arith)
]

base62_good : good_run 0 62 ≡ true
unfolding good_run good char_of is_alnum place
base62_good = refl

char_of_good :
    (k : ℕ)
    → k < 62
    → (c : ℕ) × (char_of base62 k ≡ some c) × (is_alnum c ≡ true) × (place c base62 ≡ k)
unfolding good
char_of_good k h = elim (Option-cases (char_of base62 k)) [
  | inl out ↦ absurd (ground (arith, good_run_at 0 62 k (omega arith) h base62_good))
  | inr (c, e) ↦
      let t = good_run_at 0 62 k (omega arith) h base62_good in
      (c, e, ground (arith, t), ground (arith, t, ==_iff (place c base62) k))
]

random_base62_total :
    (draw : ℕ → Option ℕ) (i n : ℕ)
    → Draws draw
    → (s : Text) × (random_base62 draw i n ≡ some s) × (all_alnum s ≡ true) × (length s ≡ n)
unfolding random_base62 all_alnum
random_base62_total draw i zero d = ([], refl, refl, refl)
random_base62_total draw i (suc n) d =
    let (k, drawn, below) = d i in
    let (c, found, alnum, placed) = char_of_good k below in
    let (s, rest, letters, count) = random_base62_total draw (suc i) n d in
    (c ∷ s, rw (drawn, found, rest, random_base62) refl, rw (alnum, letters), omega arith)

byte_length-alnum : (s : Text) → all_alnum s ≡ true → byte_length s ≡ length s
unfolding all_alnum is_alnum byte_length rune_len
byte_length-alnum [] h = refl
byte_length-alnum (c ∷ s) h = ground (arith, byte_length-alnum s)

pub byte_length-ge : (s : Text) → length s ≤ byte_length s
unfolding byte_length rune_len
byte_length-ge [] = omega arith
byte_length-ge (c ∷ s) = ground (arith, byte_length-ge s)

-- An ASCII digit, capital letter or small letter.
abbrev pub IsLetterOrDigit : ℕ → Type 0
IsLetterOrDigit c = ((48 ≤ c) × (c ≤ 57)) ⊎ ((65 ≤ c) × (c ≤ 90)) ⊎ ((97 ≤ c) × (c ≤ 122))

is_alnum_iff : (c : ℕ) → (is_alnum c ≡ true) ↔ IsLetterOrDigit c
unfolding is_alnum
is_alnum_iff c = (λ h. ground arith, λ h. ground arith)

all_alnum_iff : (s : Text) → (all_alnum s ≡ true) ↔ All IsLetterOrDigit s
unfolding all_alnum
all_alnum_iff [] = (λ h. tt, λ h. refl)
all_alnum_iff (c ∷ s) = (
  λ h. ((is_alnum_iff c).0 (ground arith), (all_alnum_iff s).0 (ground arith)),
  λ (h, hs). let first = (is_alnum_iff c).1 h in let more = (all_alnum_iff s).1 hs in ground arith,
)

app_id_parts :
    (id : Text)
    → is_valid_app_id id ≡ true
    → (byte_length id ≡ 20) × (has_prefix id (codes "app_") ≡ true) × (all_alnum (drop 4 id) ≡ true)
unfolding is_valid_app_id
app_id_parts id h = ground arith

byte_length-app_id : (s : Text) → byte_length (codes "app_" ++ s) ≡ 4 + byte_length s
unfolding byte_length rune_len
byte_length-app_id s = omega arith

app_id_valid :
    (s : Text) → length s ≡ 16 → all_alnum s ≡ true → is_valid_app_id (codes "app_" ++ s) ≡ true
unfolding is_valid_app_id has_prefix
app_id_valid s count alnum = ground (arith, byte_length-app_id s, byte_length-alnum s alnum)

-- The check accepts exactly "app_" followed by sixteen ASCII letters and digits.
pub is_valid_app_id_iff :
    (id : Text)
    → (is_valid_app_id id ≡ true)
      ↔ ((s : Text) × (id ≡ codes "app_" ++ s) × (length s ≡ 16) × All IsLetterOrDigit s)
is_valid_app_id_iff id = (
  λ h.
      let (long, prefix, alnum) = app_id_parts id h in
      let e = has_prefix→append id (codes "app_") prefix in
      (
        drop 4 id,
        e,
        omega (
          arith,
          long,
          ap byte_length e,
          byte_length-app_id (drop 4 id),
          byte_length-alnum (drop 4 id) alnum,
        ),
        (all_alnum_iff (drop 4 id)).0 alnum,
      ),
  λ (s, e, count, all). rw e (app_id_valid s count ((all_alnum_iff s).1 all)),
)

-- If the source answers, an application gets an identifier, and every handler that takes one
-- accepts it.
pub generate_app_id-is_valid :
    (draw : ℕ → Option ℕ)
    → Draws draw
    → (id : Text) × (generate_app_id draw ≡ some id) × (is_valid_app_id id ≡ true)
unfolding generate_app_id
generate_app_id-is_valid draw d =
    let (s, made, alnum, count) = random_base62_total draw 0 16 d in
    (codes "app_" ++ s, rw made, app_id_valid s count alnum)

random_base62-cons :
    (draw : ℕ → Option ℕ) (i n : ℕ)
    → Draws draw
    → (k c : ℕ) × (s : Text) × (draw i ≡ some k)
      × (place c base62 ≡ k)
      × (random_base62 draw (suc i) n ≡ some s)
      × (random_base62 draw i (suc n) ≡ some (c ∷ s))
unfolding random_base62
random_base62-cons draw i n d =
    let (k, drawn, below) = d i in
    let (c, found, alnum, placed) = char_of_good k below in
    let (s, rest, letters, count) = random_base62_total draw (suc i) n d in
    (k, c, s, drawn, placed, rest, rw (drawn, found, rest, random_base62) refl)

random_base62-injective :
    (draw other : ℕ → Option ℕ) (i n : ℕ)
    → Draws draw
    → Draws other
    → random_base62 draw i n ≡ random_base62 other i n
    → (j : ℕ) → j < n
    → draw (i + j) ≡ other (i + j)
random_base62-injective draw other i zero d o e j h = absurd (omega arith)
random_base62-injective draw other i (suc n) d o e zero h =
    let (k, c, s, drawn, placed, rest, made) = random_base62-cons draw i n d in
    let (k', c', s', drawn', placed', rest', made') = random_base62-cons other i n o in
    let same : c ≡ c' = cc in let here : i + 0 ≡ i = omega arith in rw here (cc)
random_base62-injective draw other i (suc n) d o e (suc j) h =
    let (k, c, s, drawn, placed, rest, made) = random_base62-cons draw i n d in
    let (k', c', s', drawn', placed', rest', made') = random_base62-cons other i n o in
    let later : i + suc j ≡ suc i + j = omega arith in
    rw later (random_base62-injective draw other (suc i) n d o (cc) j (omega arith))

sk-injective :
    (m m' : Option Text)
    → Option.map (λ s. codes "sk-" ++ s) m ≡ Option.map (λ s. codes "sk-" ++ s) m'
    → m ≡ m'
sk-injective none none e = refl
sk-injective none (some s') e = cc
sk-injective (some s) none e = cc
sk-injective (some s) (some s') e = cc

-- Two sources for which the same API key comes out agree in all 29 calls: a key keeps all the
-- randomness that was drawn for it.
pub generate_api_key-injective :
    (draw other : ℕ → Option ℕ)
    → Draws draw
    → Draws other
    → generate_api_key draw ≡ generate_api_key other
    → (j : ℕ) → j < 29
    → draw j ≡ other j
unfolding generate_api_key
generate_api_key-injective draw other d o e j h =
    let here : 0 + j ≡ j = omega arith in
    let same = sk-injective (random_base62 draw 0 29) (random_base62 other 0 29) e in
    rw here at (random_base62-injective draw other 0 29 d o same j h)
