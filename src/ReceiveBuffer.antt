-- ===== src/ReceiveBuffer.antt =====
-- src/cmwBuffer.hh: ReceiveBuffer<SameFormat,Z>, the way the program reads: the values stand in the
-- message as they stand in the memory of the machine. The block at `rbuf` is a list of bytes, and
-- `width` is Z. A span or a string_view is given by its bytes: one that does not lie in the block is
-- a fault.
pub mod Window
pub mod Packet
use onwards.Prelude.{
  ℕ, ◌+◌, ◌-◌, ◌*◌, ◌==◌, ◌++◌, [], ◌∷◌, List, ℤ, pos, negsuc, ◌+ℤ◌, ◌-ℤ◌, ltb_ℤ, Width, int16,
  int32, size_of, narrow, signed, of_le, load, Bool, true, false, length, if◌then◌else◌,
}
use onwards.Failure.{Run, ok, M, bind, ◌>>=◌, ◌>>◌, return, raise, access, int}

pub record ReceiveBuffer : Type 0 where
  pub width : Width
  pub rbuf : List ℕ
  pub msg_length : ℤ
  pub sub_total : ℤ
  pub packet_length : ℤ
  pub rindex : ℤ

unfoldable pub check_len : ℤ → M ReceiveBuffer (Unit {0})
check_len n b =
    if ltb_ℤ (b.msg_length -ℤ b.rindex) n
    then raise "ReceiveBuffer checkLen" (int n ∷ int b.msg_length ∷ int b.rindex ∷ []) b
    else ok tt b

-- give (address, len), which returns what it copies
unfoldable pub give : ℤ → M ReceiveBuffer (List ℕ)
unfolding check_len
give len b = bind (check_len len b) λ _ b.
    bind (access (load b.rbuf (b.sub_total +ℤ b.rindex) len) b)
      λ bs b. ok bs (record b { rindex = b.rindex +ℤ len })

-- give<T> of an unsigned type of `k` bytes; SameFormat::read copies it.
unfoldable pub give_value : ℕ → M ReceiveBuffer ℕ
give_value k = do bs ← give (pos k); return (of_le bs)

-- An unsigned value of the width, converted to int.
abbrev pub int_of : Width → ℕ → ℤ
int_of int16 n = pos n
int_of int32 n = signed int32 n

unfoldable pub next_message : M ReceiveBuffer Bool
next_message b =
    let b' = record b { sub_total = b.sub_total +ℤ b.msg_length } in
    let header = record b' { rindex = pos 0; msg_length = pos (size_of b.width) } in
    if ltb_ℤ b'.sub_total b.packet_length
    then (bind (give_value (size_of b.width) header)
        λ n b. ok true (record b { msg_length = int_of b.width n }))
    else ok false b'

-- `len` is a size_t, and packetLength an int.
unfoldable pub update : ℕ → M ReceiveBuffer Bool
update len b =
    next_message
      (record b { packet_length = narrow int32 (pos len); msg_length = pos 0; sub_total = pos 0 })

-- k times a number, in the size_t of `elements*sizeof(*data)`.
abbrev pub scale : ℕ → ℤ → ℤ
scale k (pos n) = pos (k * n)
scale k (negsuc n) = negsuc (k * (n + 1) - 1)

-- giveBlock for elements of `k` bytes; the length becomes an int again.
unfoldable pub give_block : ℕ → ℤ → M ReceiveBuffer (List ℕ)
give_block k elements = give (narrow int32 (scale k elements))

-- A view of `len` bytes from the reading position on, which is moved behind it.
unfoldable pub give_view : ℤ → M ReceiveBuffer (List ℕ)
give_view len b = bind (check_len len b) λ _ b.
    bind (access (load b.rbuf (b.sub_total +ℤ b.rindex) len) b)
      λ bs b. ok bs (record b { rindex = b.rindex +ℤ len })

unfoldable pub give_file : M ReceiveBuffer (List ℕ)
unfolding give_view
give_file = do sz ← give_value 4; give_view (signed int32 sz)

-- giveSpan for an element type of `k` bytes
unfoldable pub give_span : ℕ → M ReceiveBuffer (List ℕ)
unfolding give_view
give_span k = do sz ← give_value 4; give_view (narrow int32 (scale k (signed int32 sz)))

unfoldable pub give_bool : M ReceiveBuffer Bool
give_bool = do
  n ← give_value 1
  if n == 0 then return false else if n == 1 then return true else raise "giveBool" []

-- giveVec for elements of `k` bytes: the vector grows by what is read.
-- A negative number that leaves less than nothing becomes a size that no vector can hold.
unfoldable pub resized : ℕ → List ℕ → ℤ → M ReceiveBuffer (Unit {0})
resized k v n =
    if ltb_ℤ (pos (length v) +ℤ scale k n) (pos 0)
    then raise "vector::_M_default_append" []
    else return tt

unfoldable pub give_vec : ℕ → List ℕ → M ReceiveBuffer (List ℕ)
unfolding resized
give_vec k v = give_value 4 >>= λ n.
    resized k v (signed int32 n) >> (give_block k (signed int32 n) >>= λ bs. return (v ++ bs))
