-- ===== src/Example/Sets.antt =====
-- A set that is given back in its own order is the same set.
use onwards.Prelude.{ℕ, ◌≡◌, refl, List, [], ◌∷◌, ◌++◌, true, int32, signed, ltb_ℤ}
use onwards.Example.{emplace_hint}

abbrev pub Below : ℕ → List ℕ → Type 0
Below a [] = Unit
Below a (b ∷ more) = (ltb_ℤ (signed int32 a) (signed int32 b) ≡ true) × Below a more

-- The numbers of a set, in the order in which it is gone through
abbrev pub Ascending : List ℕ → Type 0
Ascending [] = Unit
Ascending (a ∷ more) = Below a more × Ascending more

Below-append :
    (a v : ℕ) (xs ys : List ℕ)
    → Below a (xs ++ (v ∷ ys))
    → ltb_ℤ (signed int32 a) (signed int32 v) ≡ true
Below-append a v [] ys h = h.0
Below-append a v (x ∷ xs) ys h = Below-append a v xs ys h.1

-- A number above those of the set is put at its end.
pub emplace_hint-above :
    (v : ℕ) (xs ys : List ℕ) → Ascending (xs ++ (v ∷ ys)) → emplace_hint v xs ≡ xs ++ (v ∷ [])
unfolding emplace_hint
emplace_hint-above v [] ys h = refl
emplace_hint-above v (x ∷ xs) ys h =
    rw (Below-append x v xs ys h.0, emplace_hint-above v xs ys h.1) refl
