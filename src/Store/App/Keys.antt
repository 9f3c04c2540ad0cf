-- ===== src/Store/App/Keys.antt =====
-- The cache of internal/store/app.go as a Go map: what stands under a key.
use octo_speech.Prelude.{
  ◌≡◌, refl, ◌≢◌, inl, inr, [], ◌∷◌, Text, text_eq, text_eq_iff, text_eq→eq, text_eq_refl,
  if◌then◌else◌, some, none, arith, Bool-cases, In, here, there,
}
use octo_speech.Store.App.{CacheEntry, Entries, lookup, insert, delete}

-- No key stands twice.
abbrev pub Distinct : Entries → Type 0
Distinct [] = Unit
Distinct ((k, v) ∷ m) = (lookup k m ≡ none) × Distinct m

pub lookup-insert :
    (key j : Text) (v : CacheEntry) (m : Entries)
    → lookup j (insert key v m) ≡ (if text_eq key j then some v else lookup j m)
unfolding lookup insert
lookup-insert key j v [] = refl
lookup-insert key j v ((i, w) ∷ m) =
    ground (arith, text_eq_iff key j, text_eq_iff i key, text_eq_iff i j, lookup-insert key j v m)

pub lookup-delete :
    (k j : Text) (m : Entries)
    → Distinct m
    → lookup j (delete k m) ≡ (if text_eq k j then none else lookup j m)
unfolding lookup delete
lookup-delete k j [] d = ground arith
lookup-delete k j ((i, v) ∷ m) (fresh, d) =
    ground (arith, text_eq_iff i k, text_eq_iff k j, text_eq_iff i j, lookup-delete k j m d)

pub Distinct-insert :
    (key : Text) (v : CacheEntry) (m : Entries) → Distinct m → Distinct (insert key v m)
unfolding lookup insert
Distinct-insert key v [] d = (refl, tt)
Distinct-insert key v ((j, w) ∷ m) (fresh, d) = elim (Bool-cases (text_eq j key)) [
  | inl same ↦ rw same (rw (← text_eq→eq j key same) (fresh, d))
  | inr other ↦ rw other (
    ground (arith, text_eq_iff j key, text_eq_iff key j, lookup-insert key j v m),
    Distinct-insert key v m d,
  )
]

pub Distinct-delete : (key : Text) (m : Entries) → Distinct m → Distinct (delete key m)
unfolding delete
Distinct-delete key [] d = tt
Distinct-delete key ((j, w) ∷ m) (fresh, d) = elim (Bool-cases (text_eq j key)) [
  | inl same ↦ rw same d
  | inr other ↦ rw other (ground (arith, lookup-delete key j m d), Distinct-delete key m d)
]

pub lookup-In : (j : Text) (w : CacheEntry) (m : Entries) → lookup j m ≡ some w → In (j, w) m
unfolding lookup
lookup-In j w [] h = cc
lookup-In j w ((k, v) ∷ m) h = elim (Bool-cases (text_eq k j)) [
  | inl same ↦
      let key : j ≡ k = ground (arith, text_eq_iff k j) in
      let value : w ≡ v = ground (arith, text_eq_iff k j) in rw (key, value) here
  | inr other ↦ there (lookup-In j w m (ground arith))
]

lookup-absent : (j : Text) (w : CacheEntry) (m : Entries) → In (j, w) m → lookup j m ≢ none
unfolding lookup
lookup-absent j w [] at h = elim at [ ]
lookup-absent j w ((k, v) ∷ m) here h = ground (arith, text_eq_refl j)
lookup-absent j w ((k, v) ∷ m) (there at) h = elim (Bool-cases (text_eq k j)) [
  | inl same ↦ ground arith
  | inr other ↦ lookup-absent j w m at (ground arith)
]

pub In-lookup :
    (j : Text) (w : CacheEntry) (m : Entries) → Distinct m → In (j, w) m → lookup j m ≡ some w
unfolding lookup
In-lookup j w [] d at = elim at [ ]
In-lookup j w ((k, v) ∷ m) (fresh, d) here = ground (arith, text_eq_refl j)
In-lookup j w ((k, v) ∷ m) (fresh, d) (there at) =
    ground (arith, text_eq_iff k j, lookup-absent j w m at, In-lookup j w m d at)
