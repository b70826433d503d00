-- ===== src/Example/Ordered.antt =====
-- A set is its numbers in ascending order, whatever the order and the repetitions in which they come.
use mathlib.Core.Path.{subst}
use mathlib.Core.List.{Memᴰ}
use mathlib.Core.List.Memᴰ
use onwards.Prelude.{
  ℕ, ◌+◌, ◌^◌, ◌<◌, ◌≡◌, refl, sym, ap, ◌∙◌, ◌↔◌, ◌⊎◌, inl, inr, List, [], ◌∷◌, ◌++◌, ℤ, pos,
  negsuc, Bool, true, false, Bool-cases, int32, half_range, signed, signed_pos, signed-bits_of,
  bits_of, ltb→lt, lt→ltb, ltb_ℤ, pos_part, neg_part, length, le_bytes, arith,
}
use onwards.ReceiveBuffer.{give_value}
use onwards.ReceiveBuffer.Window.{Reads, >>=-Reads, give_value-Reads, return-Reads}
use onwards.Messages.{words}
use onwards.Example.{emplace_hint, give_each, give_set}
use onwards.Example.Sets.{Below, Ascending}
use onwards.Example.Kinds.{Words, count, count-Reads}

ltb_ℤ_trans : (a b c : ℤ) → ltb_ℤ a b ≡ true → ltb_ℤ b c ≡ true → ltb_ℤ a c ≡ true
ltb_ℤ_trans a b c h k = lt→ltb (pos_part a + neg_part c) (pos_part c + neg_part a) (
    omega (
      arith,
      ltb→lt (pos_part a + neg_part b) (pos_part b + neg_part a) h,
      ltb→lt (pos_part b + neg_part c) (pos_part c + neg_part b) k,
    ))

-- Two numbers neither of which is below the other are the same.
ltb_ℤ_total : (a b : ℤ) → ltb_ℤ a b ≡ false → ltb_ℤ b a ≡ false → a ≡ b
ltb_ℤ_total (pos a) (pos b) h k = ap pos (ground arith)
ltb_ℤ_total (pos a) (negsuc b) h k = absurd (ground arith)
ltb_ℤ_total (negsuc a) (pos b) h k = absurd (ground arith)
ltb_ℤ_total (negsuc a) (negsuc b) h k = ap negsuc (ground arith)

-- Words are told apart by the numbers that they stand for.
same_word : (a b : ℕ) → a < 2 ^ 32 → b < 2 ^ 32 → signed int32 a ≡ signed int32 b → a ≡ b
same_word a b h k e =
    sym (signed-bits_of int32 a h) ∙ ap (bits_of int32) e ∙ signed-bits_of int32 b k

abbrev less : ℕ → ℕ → Bool
less a b = ltb_ℤ (signed int32 a) (signed int32 b)

Below-trans : (a b : ℕ) (xs : List ℕ) → less a b ≡ true → Below b xs → Below a xs
Below-trans a b [] h k = tt
Below-trans a b (x ∷ xs) h k =
    (ltb_ℤ_trans (signed int32 a) (signed int32 b) (signed int32 x) h k.0, Below-trans a b xs h k.1)

-- The three ways of emplace_hint
data Way (v x : ℕ) : Type 0 where
  behind : less x v ≡ true → Way v x
  before : less x v ≡ false → less v x ≡ true → Way v x
  there : less x v ≡ false → less v x ≡ false → Way v x

way : (v x : ℕ) → Way v x
way v x = elim (Bool-cases (less x v)) [
  | inl h ↦ behind h
  | inr h ↦ elim (Bool-cases (less v x)) [ inl k ↦ before h k | inr k ↦ there h k ]
]

module _ (v x : ℕ) (xs : List ℕ) where
  emplace-behind : less x v ≡ true → emplace_hint v (x ∷ xs) ≡ x ∷ emplace_hint v xs
  unfolding emplace_hint
  emplace-behind h = rw h refl

  emplace-before : less x v ≡ false → less v x ≡ true → emplace_hint v (x ∷ xs) ≡ v ∷ x ∷ xs
  unfolding emplace_hint
  emplace-before h k = rw (h, k) refl

  emplace-there : less x v ≡ false → less v x ≡ false → emplace_hint v (x ∷ xs) ≡ x ∷ xs
  unfolding emplace_hint
  emplace-there h k = rw (h, k) refl

emplace_hint-Below :
    (a v : ℕ) (xs : List ℕ) → less a v ≡ true → Below a xs → Below a (emplace_hint v xs)
unfolding emplace_hint
emplace_hint-Below a v [] h b = (h, tt)
emplace_hint-Below a v (x ∷ xs) h b = elim (way v x) [
  | behind p ↦
      subst (Below a) (sym (emplace-behind v x xs p)) (b.0, emplace_hint-Below a v xs h b.1)
  | before p q ↦ subst (Below a) (sym (emplace-before v x xs p q)) (h, b)
  | there p q ↦ subst (Below a) (sym (emplace-there v x xs p q)) b
]

-- A set stays a set.
pub emplace_hint-Ascending : (v : ℕ) (xs : List ℕ) → Ascending xs → Ascending (emplace_hint v xs)
unfolding emplace_hint
emplace_hint-Ascending v [] a = (tt, tt)
emplace_hint-Ascending v (x ∷ xs) a = elim (way v x) [
  | behind p ↦
      subst Ascending (sym (emplace-behind v x xs p))
        (emplace_hint-Below x v xs p a.0, emplace_hint-Ascending v xs a.1)
  | before p q ↦
      subst Ascending (sym (emplace-before v x xs p q)) ((q, Below-trans v x xs q a.0), a)
  | there p q ↦ subst Ascending (sym (emplace-there v x xs p q)) a
]

-- The numbers of a set, and one more
same_member : (v x : ℕ) → v < 2 ^ 32 → x < 2 ^ 32 → less x v ≡ false → less v x ≡ false → v ≡ x
same_member v x h k p q = same_word v x h k (ltb_ℤ_total (signed int32 v) (signed int32 x) q p)

module _ (n v : ℕ) (small : v < 2 ^ 32) where
  abbrev With : List ℕ → Type 0
  With xs = (n ≡ v) ⊎ Memᴰ n xs

  skip : (x : ℕ) (xs : List ℕ) → With xs → With (x ∷ xs)
  skip x xs (inl e) = inl e
  skip x xs (inr m) = inr (Memᴰ.tail m)

  pub emplace_hint-Mem : (xs : List ℕ) → Words xs → Memᴰ n (emplace_hint v xs) → With xs
  unfolding emplace_hint
  emplace_hint-Mem [] w m = Memᴰ.cases_cons m
  emplace_hint-Mem (x ∷ xs) w m = elim (way v x) [
    | behind p ↦ elim (Memᴰ.cases_cons (subst (Memᴰ n) (emplace-behind v x xs p) m)) [
      | inl e ↦ inr (Memᴰ.head e)
      | inr k ↦ skip x xs (emplace_hint-Mem xs w.1 k)
    ]
    | before p q ↦ Memᴰ.cases_cons (subst (Memᴰ n) (emplace-before v x xs p q) m)
    | there p q ↦ inr (subst (Memᴰ n) (emplace-there v x xs p q) m)
  ]

  pub Mem-emplace_hint : (xs : List ℕ) → Words xs → With xs → Memᴰ n (emplace_hint v xs)
  unfolding emplace_hint
  Mem-emplace_hint [] w (inl e) = Memᴰ.head e
  Mem-emplace_hint [] w (inr m) = absurd (Memᴰ.not-nil m)
  Mem-emplace_hint (x ∷ xs) w h = elim (way v x) [
    | behind p ↦ subst (Memᴰ n) (sym (emplace-behind v x xs p)) (later h (Mem-emplace_hint xs w.1))
    | before p q ↦ subst (Memᴰ n) (sym (emplace-before v x xs p q)) (first h)
    | there p q ↦
        subst (Memᴰ n) (sym (emplace-there v x xs p q)) (same h (same_member v x small w.0 p q))
  ]
    where
      later :
          With (x ∷ xs) → (With xs → Memᴰ n (emplace_hint v xs)) → Memᴰ n (x ∷ emplace_hint v xs)
      later (inl e) rest = Memᴰ.tail (rest (inl e))
      later (inr m) rest = elim (Memᴰ.cases_cons m) [
        | inl e ↦ Memᴰ.head e
        | inr k ↦ Memᴰ.tail (rest (inr k))
      ]

      first : With (x ∷ xs) → Memᴰ n (v ∷ x ∷ xs)
      first (inl e) = Memᴰ.head e
      first (inr m) = Memᴰ.tail m

      same : With (x ∷ xs) → v ≡ x → Memᴰ n (x ∷ xs)
      same (inl e) q = Memᴰ.head (e ∙ q)
      same (inr m) q = m

emplace_hint-Words : (v : ℕ) (xs : List ℕ) → v < 2 ^ 32 → Words xs → Words (emplace_hint v xs)
unfolding emplace_hint
emplace_hint-Words v [] h w = (h, tt)
emplace_hint-Words v (x ∷ xs) h w = elim (way v x) [
  | behind p ↦ subst Words (sym (emplace-behind v x xs p)) (w.0, emplace_hint-Words v xs h w.1)
  | before p q ↦ subst Words (sym (emplace-before v x xs p q)) (h, w)
  | there p q ↦ subst Words (sym (emplace-there v x xs p q)) w
]

-- What give makes of numbers that come in any order
record Given (xs ns ys : List ℕ) : Type 0 where
  reads : Reads (give_each (length ns) xs) (words ns) ys
  ascending : Ascending ys
  members : (n : ℕ) → Memᴰ n ys ↔ (Memᴰ n ns ⊎ Memᴰ n xs)

given : (xs ns : List ℕ) → Words xs → Words ns → Ascending xs → (ys : List ℕ) × Given xs ns ys
unfolding give_each
given xs [] w h a = (
  xs,
  record {
    reads = return-Reads xs;
    ascending = a;
    members = λ n. (inr, λ o. elim o [ inl m ↦ absurd (Memᴰ.not-nil m) | inr m ↦ m ]);
  },
)
given xs (v ∷ ns) w h a =
    let rest =
      given (emplace_hint v xs) ns (emplace_hint-Words v xs h.0 w) h.1
        (emplace_hint-Ascending v xs a) in
    (
      rest.0,
      record {
        reads =
            >>=-Reads (give_value 4) (λ v. give_each (length ns) (emplace_hint v xs)) (le_bytes 4 v)
              (words ns) v (rest.0) (give_value-Reads 4 v h.0) rest.1.reads;
        ascending = rest.1.ascending;
        members = λ n. (
          λ m. elim ((rest.1.members n).0 m) [
            | inl k ↦ inl (Memᴰ.tail k)
            | inr k ↦ elim (emplace_hint-Mem n v h.0 xs w k) [
              | inl e ↦ inl (Memᴰ.head e)
              | inr l ↦ inr l
            ]
          ],
          λ o. (rest.1.members n).1 (elim o [
            | inl m ↦ elim (Memᴰ.cases_cons m) [
              | inl e ↦ inr (Mem-emplace_hint n v h.0 xs w (inl e))
              | inr k ↦ inl k
            ]
            | inr m ↦ inr (Mem-emplace_hint n v h.0 xs w (inr m))
          ]),
        );
      },
    )

-- From the count of fewer than 2 to the 31 numbers of 32 bits and the numbers behind it, in
-- whatever order and with whatever repetitions, exampleMessages::give of a set reads exactly
-- these bytes and returns the numbers in ascending order as signed integers, each once: a number
-- is in the set just if it is among those that came.
pub give_set-any :
    (ns : List ℕ)
    → Words ns
    → length ns < half_range int32
    → (xs : List ℕ) × Reads give_set (count ns ++ words ns) xs
      × Ascending xs
      × ((n : ℕ) → Memᴰ n xs ↔ Memᴰ n ns)
unfolding give_set
give_set-any ns h l =
    let all = given [] ns tt h tt in
    (
      all.0,
      >>=-Reads (give_value 4) (λ n. give_each (pos_part (signed int32 n)) []) (count ns) (words ns)
          (length ns) (all.0) (count-Reads ns l) (rw (signed_pos int32 (length ns) l) all.1.reads),
      all.1.ascending,
      λ n. (
        λ m. elim ((all.1.members n).0 m) [ inl k ↦ k | inr k ↦ absurd (Memᴰ.not-nil k) ],
        λ m. (all.1.members n).1 (inl m),
      ),
    )
