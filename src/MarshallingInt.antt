-- ===== src/MarshallingInt.antt =====
-- src/cmwBuffer.hh: class MarshallingInt, an int32_t that travels in 1 to 5 bytes of seven bits,
-- lowest first, with the top bit set on every byte but the last. Each byte after the first counts
-- from one more than the byte before can say, so every number has one encoding only.
pub mod Encode
pub mod Decode
pub mod Texts
use onwards.Prelude.{
  ℕ, length, narrow, pos_part, ◌-ℤ◌, zero, suc, ◌+◌, ◌-◌, ◌*◌, ◌/◌, ◌%◌, List, [], ◌∷◌, ℤ, pos,
  ◌+ℤ◌, int32, bits_of, signed, Bool, ◌==◌, if◌then◌else◌, Option, none, some,
}
use onwards.Failure.{M, Run, ok, fault, bind, return, from_chars, ◌>>◌, ◌>>=◌}
use onwards.SendBuffer.{SendBuffer, receive, receive_value}
use onwards.ReceiveBuffer.{ReceiveBuffer, give_value, give_view}

-- The bit pattern of `val`.
pub record MarshallingInt : Type 0 where
  pub val : ℕ

unfoldable pub of_int : ℤ → MarshallingInt
of_int i = record { val = bits_of int32 i }

unfoldable pub of_text : List ℕ → MarshallingInt
of_text s = of_int (from_chars s)

-- operator()
unfoldable pub value : MarshallingInt → ℤ
value m = signed int32 m.val

-- operator= and operator+=, in int32_t
unfoldable pub assign : ℤ → MarshallingInt → MarshallingInt
assign r m = of_int r

unfoldable pub add_assign : ℤ → MarshallingInt → MarshallingInt
add_assign r m = of_int (value m +ℤ r)

-- operator== of two of them, and of one and a number
unfoldable pub equals : MarshallingInt → MarshallingInt → Bool
equals l r = l.val == r.val

unfoldable pub equals_int : MarshallingInt → ℤ → Bool
equals_int l r = l.val == bits_of int32 r

-- The loop of `marshal`. `n & 127` is `n % 128`, and `a |= 128` adds to it.
-- The fuel counts the bytes that may still be written; a uint32_t takes five at most.
unfoldable pub marshal_loop : ℕ → ℕ → M SendBuffer (Unit {0})
marshal_loop zero n = λ b. fault
marshal_loop (suc fuel) n =
    let more = receive_value ((n % 128 + 128) ∷ []) >> marshal_loop fuel (n / 128 - 1) in
    if n / 128 == 0 then receive_value ((n % 128) ∷ []) else more

unfoldable pub marshal : MarshallingInt → M SendBuffer (Unit {0})
marshal m = marshal_loop 5 m.val

-- The constructor that reads: `val+=(a&127)*shift` and `shift<<=7` in uint32_t, where `a&128` is the
-- top bit of the byte. The fuel counts the bytes that may still be read.
unfoldable pub read_loop : ℕ → ℕ → ℕ → M ReceiveBuffer ℕ
read_loop zero val shift = λ b. fault
read_loop (suc fuel) val shift = do
  a ← give_value 1
  let val' = (val + a % 128 * shift) % 0x1_0000_0000
  let shift' = shift * 128 % 0x1_0000_0000
  let more = read_loop fuel ((val' + shift') % 0x1_0000_0000) shift'
  if a / 128 % 2 == 0 then return val' else more

-- Each round takes a byte of the message, so those that are left give fuel enough.
unfoldable pub read : M ReceiveBuffer MarshallingInt
unfolding read_loop
read b =
    bind (read_loop (pos_part (b.msg_length -ℤ b.rindex) + 1) 0 1 b)
      λ val b. ok (record { val = val }) b

-- giveStringView of a ReceiveBuffer: the length may be negative, and is used as it is.
unfoldable pub give_string_view : M ReceiveBuffer (List ℕ)
give_string_view = do len ← read; give_view (value len)

-- receive (b, string_view): the size_t becomes an int32_t for the length, and an int for the copy.
unfoldable pub receive_text : List ℕ → M SendBuffer (Unit {0})
receive_text s = marshal (of_int (pos (length s))) >> receive s (narrow int32 (pos (length s)))

-- receive (b, stringPlus): one length for all the texts.
abbrev pub total_size : List (List ℕ) → ℕ
total_size [] = 0
total_size (s ∷ ss) = length s + total_size ss

unfoldable pub receive_all : List (List ℕ) → M SendBuffer (Unit {0})
receive_all [] = λ b. ok tt b
receive_all (s ∷ ss) = receive s (narrow int32 (pos (length s))) >> receive_all ss

unfoldable pub receive_texts : List (List ℕ) → M SendBuffer (Unit {0})
receive_texts ss = marshal (of_int (pos (total_size ss))) >> receive_all ss
