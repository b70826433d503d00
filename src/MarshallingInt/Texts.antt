-- ===== src/MarshallingInt/Texts.antt =====
-- Numbers and texts travel unchanged.
use mathlib.Core.Path.{subst}
use onwards.Prelude.{
  half_le, ℕ, ◌^◌, ◌<◌, ◌≡◌, refl, List, [], ◌∷◌, ◌++◌, arith, length, length-append, Width, int32,
  half_range, pos, ◌∙◌, narrow, narrow_pos, bits_of_pos, signed_pos,
}
use onwards.SendBuffer.{receive}
use onwards.SendBuffer.Emit.{Emits, >>-Emits, receive-Emits, skip-Emits}
use onwards.ReceiveBuffer.{give_view}
use onwards.ReceiveBuffer.Window.{Reads, >>=-Reads, give-Reads, give_view-eq-give}
use onwards.MarshallingInt.{
  MarshallingInt, of_int, value, marshal, read, give_string_view, receive_text, receive_all,
  receive_texts, total_size,
}
use onwards.MarshallingInt.Encode.{encoding, marshal-Emits}
use onwards.MarshallingInt.Decode.{read-Reads}
use onwards.Wire.{Carries}

-- Every MarshallingInt of 32 bits, negative ones too, is written as bytes from which the reading
-- constructor returns it and reads no further; with too little room for them the writing throws.
pub marshal-Carries :
    (w : Width) (m : MarshallingInt) → m.val < 2 ^ 32 → Carries w (marshal m) read m
marshal-Carries w m h = record {
  bytes = encoding 4 m.val;
  emits = marshal-Emits w m h;
  reads = read-Reads m.val h;
}

value_small : (n : ℕ) → n < half_range int32 → value (record { val = n }) ≡ pos n
unfolding value
value_small n h = signed_pos int32 n h

pub value-of_int : (n : ℕ) → n < half_range int32 → value (of_int (pos n)) ≡ pos n
unfolding value of_int
value-of_int n h = rw (bits_of_pos int32 n h) (signed_pos int32 n h)

pub length_prefix :
    (w : Width) (n : ℕ) → n < half_range w → Emits w (marshal (of_int (pos n))) (encoding 4 n)
unfolding of_int
length_prefix w n h =
    rw (bits_of_pos int32 n (half_le w n h))
      (marshal-Emits w (record { val = n }) (omega (arith, half_le w n h)))

receive-text-Emits :
    (w : Width) (s : List ℕ)
    → length s < half_range w
    → Emits w (receive s (narrow int32 (pos (length s)))) s
receive-text-Emits w s h =
    rw (narrow_pos int32 (length s) (half_le w (length s) h)) (receive-Emits w s h)

give_view-Reads : (s : List ℕ) → Reads (give_view (pos (length s))) s s
give_view-Reads s w p v rest e = give_view-eq-give _ _ ∙ give-Reads s w p v rest e

pub give_string_view-Reads :
    (s : List ℕ)
    → length s < half_range int32
    → Reads give_string_view (encoding 4 (length s) ++ s) s
unfolding give_string_view
give_string_view-Reads s h =
    >>=-Reads read (λ len. give_view (value len)) (encoding 4 (length s)) s
      (record { val = length s }) s (read-Reads (length s) (omega arith))
      (rw (value_small (length s) h) (give_view-Reads s))

pub receive_text-Emits :
    (w : Width) (s : List ℕ)
    → length s < half_range w
    → Emits w (receive_text s) (encoding 4 (length s) ++ s)
unfolding receive_text
receive_text-Emits w s h = >>-Emits w (length_prefix w (length s) h) (receive-text-Emits w s h)

-- A text arrives whole.
pub receive_text-Carries :
    (w : Width) (s : List ℕ)
    → length s < half_range w
    → Carries w (receive_text s) give_string_view s
receive_text-Carries w s h = record {
  bytes = encoding 4 (length s) ++ s;
  emits = receive_text-Emits w s h;
  reads = give_string_view-Reads s (half_le w (length s) h);
}

-- The texts of one call, end to end.
abbrev pub joined : List (List ℕ) → List ℕ
joined [] = []
joined (s ∷ ss) = s ++ joined ss

pub length-joined : (ss : List (List ℕ)) → length (joined ss) ≡ total_size ss
length-joined [] = refl
length-joined (s ∷ ss) = omega (arith, length-append s (joined ss), length-joined ss)

receive_all-Emits :
    (w : Width) (ss : List (List ℕ))
    → total_size ss < half_range w
    → Emits w (receive_all ss) (joined ss)
unfolding receive_all
receive_all-Emits w [] h = skip-Emits w
receive_all-Emits w (s ∷ ss) h =
    >>-Emits w (receive-text-Emits w s (omega arith)) (receive_all-Emits w ss (omega arith))

pub receive_texts-Emits :
    (w : Width) (ss : List (List ℕ))
    → total_size ss < half_range w
    → Emits w (receive_texts ss) (encoding 4 (total_size ss) ++ joined ss)
unfolding receive_texts
receive_texts-Emits w ss h =
    >>-Emits w (length_prefix w (total_size ss) h) (receive_all-Emits w ss h)

pub receive_texts-Reads :
    (ss : List (List ℕ))
    → total_size ss < half_range int32
    → Reads give_string_view (encoding 4 (total_size ss) ++ joined ss) (joined ss)
receive_texts-Reads ss h =
    subst (λ n. Reads give_string_view (encoding 4 n ++ joined ss) (joined ss)) (length-joined ss)
      (give_string_view-Reads (joined ss) (omega (arith, length-joined ss)))

-- Several texts, whose sizes together the index type can hold, are written in one call as bytes
-- from which giveStringView returns their concatenation.
pub receive_texts-Carries :
    (w : Width) (ss : List (List ℕ))
    → total_size ss < half_range w
    → Carries w (receive_texts ss) give_string_view (joined ss)
unfolding receive_texts
receive_texts-Carries w ss h = record {
  bytes = encoding 4 (total_size ss) ++ joined ss;
  emits = receive_texts-Emits w ss h;
  reads = receive_texts-Reads ss (half_le w (total_size ss) h);
}
