-- ===== src/Example/Kinds.antt =====
-- The bytes of each kind of message, as they are written and as they are read.
use mathlib.Core.Path.{subst}
use onwards.Prelude.{
  ℕ, ◌*◌, ◌^◌, ◌<◌, ◌≡◌, refl, sym, List, [], ◌∷◌, ◌++◌, pos, Width, int16, int32, half_range,
  length, length-append, le_bytes, length-le_bytes, of_le-le_bytes, narrow_pos, bits_of, ◌+ℤ◌,
  bits_of_pos, signed, signed_pos, pos_part, arith, ap, ◌∙◌, append-nil, append_assoc,
}
use onwards.Failure.{ok, bind, ◌>>◌, ◌>>=◌, return}
use onwards.SendBuffer.{receive, receive_value}
use onwards.SendBuffer.Emit.{Emits, >>-Emits, receive-Emits, receive_value-Emits, skip-Emits}
use onwards.ReceiveBuffer.{ReceiveBuffer, resized, scale, give, give_value, give_block, give_vec}
use onwards.ReceiveBuffer.Window.{Reads, >>=-Reads, give-Reads, give_value-Reads, return-Reads}
use onwards.MarshallingInt.{give_string_view}
use onwards.MarshallingInt.Encode.{encoding}
use onwards.MarshallingInt.Texts.{give_string_view-Reads, receive_text-Emits}
use onwards.Complex.{mapped-Reads}
use onwards.Messages.{
  words, receive_block, receive_each, mar_example, mar_set, mar_array, give_example, give_array,
}
use onwards.Example.{
  Content, vector_text, int_set, float_array, mar, emplace_hint, give_each, give_set, words_of,
}
use onwards.Example.Sets.{Ascending, emplace_hint-above}

-- Numbers of 32 bits
abbrev pub Words : List ℕ → Type 0
Words [] = Unit
Words (n ∷ ns) = (n < 2 ^ 32) × Words ns

pub length-words : (ns : List ℕ) → length (words ns) ≡ 4 * length ns
length-words [] = refl
length-words (n ∷ ns) =
    omega (arith, length-append (le_bytes 4 n) (words ns), length-le_bytes 4 n, length-words ns)

pub words_of-words : (ns : List ℕ) → Words ns → words_of (words ns) ≡ ns
unfolding le_bytes
words_of-words [] h = refl
words_of-words (n ∷ ns) h =
    ap (λ m. m ∷ words_of (words ns)) (of_le-le_bytes 4 n h.0)
    ∙ ap (λ ms. n ∷ ms) (words_of-words ns h.1)

abbrev pub count : List ℕ → List ℕ
count ns = le_bytes 4 (length ns)

-- The bytes of a message behind its id
abbrev pub body : Content → List ℕ
body (vector_text ns s) = (count ns ++ words ns) ++ (encoding 4 (length s) ++ s)
body (int_set ns) = count ns ++ words ns
body (float_array ns) = words ns

number-Emits : (w : Width) (n : ℕ) → Emits w (receive_value (le_bytes 4 n)) (le_bytes 4 n)
number-Emits int16 n = receive_value-Emits int16 (le_bytes 4 n) (omega (arith, length-le_bytes 4 n))
number-Emits int32 n = receive_value-Emits int32 (le_bytes 4 n) (omega (arith, length-le_bytes 4 n))

count-Emits :
    (ns : List ℕ)
    → length ns < half_range int32
    → Emits int16 (receive_value (le_bytes 4 (bits_of int32 (pos (length ns))))) (count ns)
count-Emits ns h = rw (bits_of_pos int32 (length ns) h) (number-Emits int16 (length ns))

receive_block-Emits :
    (ns : List ℕ)
    → 4 * length ns < half_range int16
    → Emits int16 (receive_block ns) (count ns ++ words ns)
unfolding receive_block
receive_block-Emits ns h = >>-Emits int16 (count-Emits ns (omega arith)) (
    rw (narrow_pos int32 (length ns * 4) (omega arith)) (
      subst (λ n. Emits int16 (receive (words ns) (pos n)) (words ns)) {x = length (words ns)}
        {y = length ns * 4} (omega (arith, length-words ns))
        (receive-Emits int16 (words ns) (omega (arith, length-words ns)))))

receive_each-Emits : (ns : List ℕ) → Emits int16 (receive_each ns) (words ns)
unfolding receive_each
receive_each-Emits [] = skip-Emits int16
receive_each-Emits (n ∷ ns) = >>-Emits int16 (number-Emits int16 n) (receive_each-Emits ns)

-- What the message must be: the numbers have 32 bits, those of a set ascend, and a datagram holds it all.
abbrev pub Sound : Content → Type 0
Sound (vector_text ns s) = Words ns
Sound (int_set ns) = Words ns × Ascending ns
Sound (float_array ns) = Words ns × (length ns ≡ 6)

-- Every kind of message is written as its bytes.
pub mar-Emits :
    (t : Content) → Sound t → length (body t) < half_range int16 → Emits int16 (mar t) (body t)
unfolding mar mar_example mar_set mar_array
mar-Emits (vector_text ns s) h l =
    let size = length-append (count ns ++ words ns) (encoding 4 (length s) ++ s) in
    >>-Emits int16
      (receive_block-Emits ns
        (omega (arith, size, length-append (count ns) (words ns), length-words ns)))
      (receive_text-Emits int16 s (omega (arith, size, length-append (encoding 4 (length s)) s)))
mar-Emits (int_set ns) h l =
    >>-Emits int16
      (count-Emits ns (omega (arith, length-append (count ns) (words ns), length-words ns)))
      (receive_each-Emits ns)
mar-Emits (float_array ns) h l =
    subst (λ n. Emits int16 (receive (words ns) (pos n)) (words ns)) {x = length (words ns)}
      {y = 24} (omega (arith, length-words ns, h.1)) (receive-Emits int16 (words ns) l)

pub count-Reads :
    (ns : List ℕ) → length ns < half_range int32 → Reads (give_value 4) (count ns) (length ns)
count-Reads ns h = give_value-Reads 4 (length ns) (omega arith)

give_block-Reads :
    (ns : List ℕ)
    → 4 * length ns < half_range int32
    → Reads (give_block 4 (pos (length ns))) (words ns) (words ns)
unfolding give_block
give_block-Reads ns h = rw (narrow_pos int32 (4 * length ns) h) (
    subst (λ n. Reads (give (pos n)) (words ns) (words ns)) (length-words ns)
      (give-Reads (words ns)))

resized_lem : (n : ℕ) (b : ReceiveBuffer) → resized 4 [] (pos n) b ≡ ok tt b
unfolding resized scale ◌+ℤ◌
resized_lem n b = ground arith

give_vec-Reads :
    (ns : List ℕ)
    → 4 * length ns < half_range int32
    → Reads (give_vec 4 []) (count ns ++ words ns) (words ns)
unfolding give_vec
give_vec-Reads ns h =
    >>=-Reads (give_value 4)
      (λ n. resized 4 [] (signed int32 n) >> (give_block 4 (signed int32 n) >>= λ bs. return bs))
      (count ns) (words ns) (length ns) (words ns) (count-Reads ns (omega arith))
      (rw (signed_pos int32 (length ns) (omega arith)) (
        subst (λ m. Reads m (words ns) (words ns))
          (λ i b.
            bind (sym (resized_lem (length ns) b) i)
              (λ _. give_block 4 (pos (length ns)) >>= λ bs. return bs))
          (mapped-Reads (give_block 4 (pos (length ns))) (λ bs. bs) (words ns) (words ns)
            (give_block-Reads ns h))))

-- Numbers that go on where the set ends
give_each-Reads :
    (xs ns : List ℕ)
    → Words ns
    → Ascending (xs ++ ns)
    → Reads (give_each (length ns) xs) (words ns) (xs ++ ns)
unfolding give_each
give_each-Reads xs [] h a = subst (Reads (return xs) []) (sym (append-nil xs)) (return-Reads xs)
give_each-Reads xs (n ∷ ns) h a =
    >>=-Reads (give_value 4) (λ v. give_each (length ns) (emplace_hint v xs)) (le_bytes 4 n)
      (words ns) n (xs ++ (n ∷ ns)) (give_value-Reads 4 n h.0)
      (rw (emplace_hint-above n xs ns a) (
        subst (Reads (give_each (length ns) (xs ++ (n ∷ []))) (words ns))
          (append_assoc xs (n ∷ []) ns)
          (give_each-Reads (xs ++ (n ∷ [])) ns h.1
            (subst Ascending (sym (append_assoc xs (n ∷ []) ns)) a))))

pub give_set-Reads :
    (ns : List ℕ)
    → Words ns
    → Ascending ns
    → length ns < half_range int32
    → Reads give_set (count ns ++ words ns) ns
unfolding give_set
give_set-Reads ns h a l =
    >>=-Reads (give_value 4) (λ n. give_each (pos_part (signed int32 n)) []) (count ns) (words ns)
      (length ns) ns (count-Reads ns l)
      (rw (signed_pos int32 (length ns) l) (give_each-Reads [] ns h a))

pub give_example-Reads :
    (ns s : List ℕ)
    → length (body (vector_text ns s)) < half_range int16
    → Reads give_example (body (vector_text ns s)) (words ns, s)
unfolding give_example
give_example-Reads ns s l =
    let size = length-append (count ns ++ words ns) (encoding 4 (length s) ++ s) in
    >>=-Reads (give_vec 4 []) (λ a. give_string_view >>= λ b. return (a, b)) (count ns ++ words ns)
      (encoding 4 (length s) ++ s) (words ns) (words ns, s)
      (give_vec-Reads ns
        (omega (arith, size, length-append (count ns) (words ns), length-words ns)))
      (mapped-Reads give_string_view (λ b. (words ns, b)) (encoding 4 (length s) ++ s) s
        (give_string_view-Reads s (omega (arith, size, length-append (encoding 4 (length s)) s))))

pub give_array-Reads : (ns : List ℕ) → length ns ≡ 6 → Reads give_array (words ns) (words ns)
unfolding give_array
give_array-Reads ns e =
    subst (λ n. Reads (give_block 4 (pos n)) (words ns) (words ns)) e
      (give_block-Reads ns (omega (arith, e)))
