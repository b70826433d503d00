-- ===== src/FixedString/Content.antt =====
-- The text that a FixedString holds, and what its operations make of it.
use onwards.Prelude.{
  splice_front, le→leb, splice_lem, lt→ltb, drop-drop, take-append-drop, length-take, ℕ, ◌+◌, ◌-◌,
  ◌≤◌, ◌<◌, ◌≡◌, refl, sym, List, [], ◌∷◌, ◌++◌, pos, +ℤ_pos, -ℤ_pos, length, length-append,
  length-drop, load_in, store_in, splice, take, drop, take_all, half_range, int32, bits_of_pos,
  arith, ap, ◌∙◌, append_assoc,
}
use onwards.Failure.{ok, raised, failure}
use onwards.MarshallingInt.{MarshallingInt, of_int, add_assign}
use onwards.MarshallingInt.Texts.{value-of_int}
use onwards.FixedString.{
  FixedString, copy_text, terminate, construct, assign, append, bytes_available,
}

-- The object that holds the text `s`, over an array that ends in `slack`.
abbrev pub holding : List ℕ → List ℕ → FixedString
holding s slack = record { str = s ++ slack; len = of_int (pos (length s)) }

-- The object that ends its text with a zero, as a C string does.
abbrev pub terminated : List ℕ → List ℕ → FixedString
terminated s slack = record { str = s ++ (0 ∷ slack); len = of_int (pos (length s)) }

-- Room for a text and its terminator, within the range of int.
abbrev pub Room : List ℕ → List ℕ → Type 0
Room s str = (length s < length str) × (length str < half_range int32)

copy_text_lem :
    (f : FixedString) (a : ℕ) (s : List ℕ)
    → a + length s ≤ length f.str
    → copy_text (pos a) s (pos (length s)) f ≡ ok tt (record f { str = splice f.str a s })
unfolding copy_text
copy_text_lem f a s h = rw (
  load_in s 0 (length s) (omega arith),
  take_all (length s) s (omega arith),
  store_in f.str a s h,
)

-- The terminator goes over the first byte behind the text.
terminate_lem :
    (s slack : List ℕ) (m : MarshallingInt) (l : ℕ)
    → l ≡ length s
    → 0 < length slack
    → terminate (pos l) (record { str = s ++ slack; len = m })
      ≡ ok tt (record { str = s ++ (0 ∷ drop 1 slack); len = m })
unfolding terminate
terminate_lem s slack m l e h =
    rw (store_in (s ++ slack) l (0 ∷ []) (omega (arith, length-append s slack))) (
      ap (λ t. ok tt (record { str = t; len = m }))
        (ap (λ t. splice (s ++ t) l (0 ∷ [])) (sym (take-append-drop 1 slack))
          ∙ splice_lem s (take 1 slack) (drop 1 slack) (0 ∷ []) l e
              (omega (arith, length-take 1 slack))))

module _ (s : List ℕ) (f : FixedString) where
  -- The constructor from a text that fits with its terminator, over an array shorter than 2 to
  -- the 31, makes the FixedString that holds the text and its terminator.
  pub construct_ok : Room s f.str → construct s f ≡ ok tt (terminated s (drop (length s + 1) f.str))
  unfolding construct
  construct_ok h =
      rw
        (
          value-of_int (length s) (omega arith),
          lt→ltb (length s + 0) (length f.str + 0) (omega arith),
          copy_text_lem (record f { len = of_int (pos (length s)) }) 0 s (omega arith),
          splice_front s f.str,
        )
        (terminate_lem s (drop (length s) f.str) (of_int (pos (length s))) (length s) refl
            (omega (arith, length-drop (length s) f.str))
          ∙ ap (λ t. ok tt (terminated s t)) (drop-drop 1 (length s) (length s + 1) f.str refl))

  pub construct_long :
      length f.str ≤ length s
      → length s < half_range int32
      → construct s f ≡ raised (failure "FixedString ctor" []) f
  unfolding construct
  construct_long h k = rw (value-of_int (length s) k) (ground arith)

  -- Assignment holds the text, and leaves the array as it is behind it.
  pub assign_ok : Room s f.str → assign s f ≡ ok tt (holding s (drop (length s) f.str))
  unfolding assign
  assign_ok h = ground (
    arith,
    value-of_int (length s) (omega arith),
    copy_text_lem (record f { len = of_int (pos (length s)) }) 0 s (omega arith),
    splice_front s f.str,
  )

  pub assign_long :
      length f.str ≤ length s → assign s f ≡ raised (failure "FixedString operator=" []) f
  unfolding assign
  assign_long h = ground arith

-- Appending to a text. `slack` is what the array holds behind it, a byte at least.
module _ (s slack t : List ℕ) (some_slack : 0 < length slack)
    (small : length s + length slack < half_range int32) where
  bytes_available_lem : bytes_available (holding s slack) ≡ length slack - 1
  unfolding bytes_available
  bytes_available_lem =
      rw
        (
          value-of_int (length s) (omega arith),
          +ℤ_pos (length s) 1,
          length-append s slack,
          -ℤ_pos (length s + length slack) (length s + 1) (omega arith),
          bits_of_pos int32 (length s + length slack - (length s + 1)) (omega arith),
        )
        (omega arith)

  grown :
      length t < length slack
      → add_assign (pos (length t)) (of_int (pos (length s))) ≡ of_int (pos (length (s ++ t)))
  unfolding add_assign
  grown h =
      rw (value-of_int (length s) (omega arith), +ℤ_pos (length s) (length t), length-append s t)

  written :
      length t < length slack → splice (s ++ slack) (length s) t ≡ (s ++ t) ++ drop (length t) slack
  written h =
      ap (λ u. splice (s ++ u) (length s) t) (sym (take-append-drop (length t) slack))
      ∙ splice_lem s (take (length t) slack) (drop (length t) slack) t (length s) refl
          (omega (arith, length-take (length t) slack))
      ∙ sym (append_assoc s t (drop (length t) slack))

  -- On a FixedString whose array has room behind its text for another text and the terminator,
  -- and is shorter than 2 to the 31, append leaves the concatenation and its terminator, and the
  -- bytes behind them as they were.
  pub append_ok :
      length t < length slack
      → append t (holding s slack) ≡ ok tt (terminated (s ++ t) (drop (length t + 1) slack))
  unfolding append
  append_ok h =
      rw
        (
          bytes_available_lem,
          le→leb (length t) (length slack - 1) (omega arith),
          value-of_int (length s) (omega arith),
          copy_text_lem (holding s slack) (length s) t (omega (arith, length-append s slack)),
          grown h,
          written h,
          value-of_int (length (s ++ t)) (omega (arith, length-append s t)),
        )
        (terminate_lem (s ++ t) (drop (length t) slack) (of_int (pos (length (s ++ t))))
            (length (s ++ t)) refl (omega (arith, length-drop (length t) slack))
          ∙ ap (λ u. ok tt (terminated (s ++ t) u))
              (drop-drop 1 (length t) (length t + 1) slack refl))

  -- On a FixedString whose array has no room for another text and the terminator, and is shorter
  -- than 2 to the 31, append changes nothing.
  pub append_full : length slack ≤ length t → append t (holding s slack) ≡ ok tt (holding s slack)
  unfolding append
  append_full h = ground (arith, bytes_available_lem)
