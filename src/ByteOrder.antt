-- ===== src/ByteOrder.antt =====
-- src/cmwBuffer.hh: LeastSignificantFirst and MostSignificantFirst, and the reading of a value in one of
-- the formats. A value is given by its bit pattern of `k` bytes. The variable that is read into is not
-- initialised in ReceiveBuffer::give: what it holds, `init`, is an argument.
pub mod Agree
pub mod Wide
use onwards.Prelude.{
  ℕ, zero, suc, ◌+◌, ◌-◌, ◌*◌, ◌%◌, ◌^◌, ℤ, pos, negsuc, int32, signed, Option, none, some, ltb,
  if◌then◌else◌, ◌==◌, bit_or,
}
use onwards.Failure.{M, ◌>>=◌, return, access}
use onwards.ReceiveBuffer.{ReceiveBuffer, give_value}

pub data Order : Type 0 where
  same_format least_significant_first most_significant_first : Order

-- An int, converted to the unsigned type of `k` bytes
abbrev pub as_unsigned : ℕ → ℤ → ℕ
as_unsigned k (pos n) = n % 256 ^ k
as_unsigned k (negsuc n) = 256 ^ k - 1 - n % 256 ^ k

-- A byte, which is an int when it is shifted by 8*c. A shift by 32 or more is undefined.
unfoldable pub shifted : ℕ → ℕ → ℕ → Option ℕ
shifted k c n = if ltb c 4 then some (as_unsigned k (signed int32 (n * 256 ^ c))) else none

abbrev pub add_byte : ℕ → ℕ → ℕ → M ReceiveBuffer ℕ
add_byte k c val = give_value 1 >>= λ n. access (shifted k c n) >>= λ s. return (bit_or val s)

-- The rounds that are left, and the counter
unfoldable pub lsf_loop : ℕ → ℕ → ℕ → ℕ → M ReceiveBuffer ℕ
lsf_loop k zero c val = return val
lsf_loop k (suc left) c val = add_byte k c val >>= lsf_loop k left (suc c)

unfoldable pub read_lsf : ℕ → ℕ → M ReceiveBuffer ℕ
read_lsf k val = lsf_loop k k 0 val

unfoldable pub msf_loop : ℕ → ℕ → ℕ → M ReceiveBuffer ℕ
msf_loop k zero val = return val
msf_loop k (suc c) val = add_byte k c val >>= msf_loop k c

unfoldable pub read_msf : ℕ → ℕ → M ReceiveBuffer ℕ
read_msf k val = msf_loop k k val

abbrev pub read_as : Order → ℕ → ℕ → M ReceiveBuffer ℕ
read_as same_format k init = give_value k
read_as least_significant_first k init = read_lsf k init
read_as most_significant_first k init = read_msf k init

-- ReceiveBuffer<R,Z>::give<T>
unfoldable pub give_as : Order → ℕ → ℕ → M ReceiveBuffer ℕ
give_as r k init = if k == 1 then give_value 1 else read_as r k init
