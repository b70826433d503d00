-- ===== src/FixedString/Travel.antt =====
-- A FixedString on the wire: what one end holds, the other holds, terminated.
use mathlib.Core.Path.{fun_ext}
use onwards.Prelude.{
  splice_front, narrow, some, take_all, half_le, splice, ℕ, ◌+◌, ◌<◌, ◌≡◌, refl, sym, List, [], ◌∷◌,
  ◌++◌, ℤ, pos, Width, half_range, int32, length, length-append, length-drop, store_in, splice_lem,
  take, drop, take-append-drop, length-take, drop-drop, take-append, load, load_in, arith, ap, ◌∙◌,
  lt→ltb, bits_of_pos,
}
use onwards.Failure.{bind}
use onwards.SendBuffer.{SendBuffer, receive, copy_in, reserve_bytes}
use onwards.SendBuffer.Emit.{Emits, >>-Emits, receive-Emits}
use onwards.ReceiveBuffer.Window.{Reads, >>=-Reads, give_ok}
use onwards.MarshallingInt.{of_int, read}
use onwards.MarshallingInt.Encode.{encoding}
use onwards.MarshallingInt.Decode.{read-Reads}
use onwards.MarshallingInt.Texts.{value-of_int, length_prefix}
use onwards.FixedString.{take_in, receive_from, marshal_fixed}
use onwards.FixedString.Content.{holding, terminated, Room}
use onwards.Wire.{Carries}

-- `receive` copies no more of the array than its length says.
copy_prefix :
    (i : ℤ) (s slack : List ℕ) (b : SendBuffer)
    → copy_in i (s ++ slack) (pos (length s)) b ≡ copy_in i s (pos (length s)) b
unfolding copy_in
copy_prefix i s slack b = rw same
  where
    same : load (s ++ slack) (pos 0) (pos (length s)) ≡ load s (pos 0) (pos (length s))
    same =
        load_in (s ++ slack) 0 (length s) (omega (arith, length-append s slack))
        ∙ ap some (take-append (length s) s slack refl ∙ sym (take_all (length s) s (omega arith)))
        ∙ sym (load_in s 0 (length s) (omega arith))

receive_prefix :
    (s slack : List ℕ) (b : SendBuffer)
    → receive (s ++ slack) (pos (length s)) b ≡ receive s (pos (length s)) b
unfolding receive
receive_prefix s slack b =
    ap (bind (reserve_bytes (narrow b.width (pos (length s))) b))
      (fun_ext λ i. fun_ext λ c. copy_prefix i s slack c)

-- Only the text travels, not what the array holds behind it.
pub marshal_fixed-Emits :
    (w : Width) (s slack : List ℕ)
    → length s < half_range w
    → Emits w (marshal_fixed (holding s slack)) (encoding 4 (length s) ++ s)
unfolding marshal_fixed
marshal_fixed-Emits w s slack h = >>-Emits w (length_prefix w (length s) h) (
    rw (value-of_int (length s) (half_le w (length s) h), fun_ext (receive_prefix s slack))
      (receive-Emits w s h))

-- The terminator over the first byte behind the text.
splice_end :
    (s str : List ℕ)
    → length s < length str
    → splice (s ++ drop (length s) str) (length s) (0 ∷ []) ≡ s ++ (0 ∷ drop (length s + 1) str)
splice_end s str h =
    ap (λ t. splice (s ++ t) (length s) (0 ∷ [])) (sym (take-append-drop 1 (drop (length s) str)))
    ∙ splice_lem s (take 1 (drop (length s) str)) (drop 1 (drop (length s) str)) (0 ∷ []) (length s)
        refl (omega (arith, length-take 1 (drop (length s) str), length-drop (length s) str))
    ∙ ap (λ t. s ++ (0 ∷ t)) (drop-drop 1 (length s) (length s + 1) str refl)

take_in-Reads :
    (s str : List ℕ)
    → Room s str
    → Reads (take_in str (of_int (pos (length s)))) s (terminated s (drop (length s + 1) str))
unfolding take_in
take_in-Reads s str h w p v rest e = rw (
  value-of_int (length s) (omega arith),
  lt→ltb (length s + 0) (length str + 0) (omega arith),
  give_ok w p v s rest e,
  store_in str 0 s (omega arith),
  splice_front s str,
  store_in (s ++ drop (length s) str) (length s) (0 ∷ [])
      (omega (arith, length-append s (drop (length s) str), length-drop (length s) str)),
  splice_end s str (omega arith),
)

pub receive_from-Reads :
    (s str : List ℕ)
    → length s < half_range int32
    → Room s str
    → Reads (receive_from str) (encoding 4 (length s) ++ s) (terminated s (drop (length s + 1) str))
unfolding receive_from of_int
receive_from-Reads s str h room =
    >>=-Reads read (take_in str) (encoding 4 (length s)) s (of_int (pos (length s))) _
      (rw (bits_of_pos int32 (length s) h) (read-Reads (length s) (omega arith)))
      (take_in-Reads s str room)

-- The text that a FixedString holds, if the index type can hold its size, is written as bytes
-- from which the stream constructor, over an array with room for the text and its terminator,
-- makes the FixedString that holds the text and its terminator.
pub marshal_fixed-Carries :
    (w : Width) (s slack str : List ℕ)
    → length s < half_range w
    → Room s str
    → Carries w
        (marshal_fixed (holding s slack))
        (receive_from str)
        (terminated s (drop (length s + 1) str))
marshal_fixed-Carries w s slack str h room = record {
  bytes = encoding 4 (length s) ++ s;
  emits = marshal_fixed-Emits w s slack h;
  reads = receive_from-Reads s str (half_le w (length s) h) room;
}
