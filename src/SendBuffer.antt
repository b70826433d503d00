-- ===== src/SendBuffer.antt =====
-- src/cmwBuffer.hh: SendBuffer<Z> and the functions `receive` that write to it. The block at `buf`
-- is a list of bytes; `width` is Z. Each method is a state passing function.
pub mod Space
pub mod Frame
pub mod Emit
use onwards.Prelude.{
  take, ℕ, ◌+◌, ◌-◌, List, [], ◌∷◌, ◌++◌, ℤ, pos, negsuc, ◌+ℤ◌, ◌-ℤ◌, ltb_ℤ, Width, int16, int32,
  size_of, narrow, bits_of, le_bytes, load, store, drop, Option, none, some, if◌then◌else◌, length,
  Bool, pos_part,
}
use onwards.Failure.{
  Run, ok, raised, fault, M, bind, ◌>>=◌, ◌>>◌, return, raise, access, int, Failure, text,
}

pub record SendBuffer : Type 0 where
  pub width : Width
  pub buf : List ℕ
  pub bufsize : ℤ
  pub saved_size : ℤ
  pub index : ℤ
  pub sock : ℤ

-- SendBuffer (addr, sz)
unfoldable pub init : Width → List ℕ → ℤ → SendBuffer
init w addr sz = record {
  width = w;
  buf = addr;
  bufsize = sz;
  saved_size = pos 0;
  index = pos 0;
  sock = negsuc 0;
}

unfoldable pub get_z : SendBuffer → ℕ
get_z b = size_of b.width

-- `index` moves in the type Z, and wraps there.
unfoldable pub reserve_bytes : ℤ → M SendBuffer ℤ
reserve_bytes n b =
    if ltb_ℤ (b.bufsize -ℤ b.index) n
    then raise "SendBuffer reserveBytes" (int n ∷ int b.index ∷ []) b
    else ok b.index (record b { index = narrow b.width (b.index +ℤ n) })

-- ::std::memcpy(buf+i,data,size): `data` is the block that the pointer points to.
unfoldable pub copy_in : ℤ → List ℕ → ℤ → M SendBuffer (Unit {0})
copy_in i block size b =
    bind (access (load block (pos 0) size) b)
      λ bs b. bind (access (store b.buf i bs) b) λ mem b. ok tt (record b { buf = mem })

-- The argument of reserveBytes has the type Z, and an int is converted to it.
unfoldable pub receive : List ℕ → ℤ → M SendBuffer (Unit {0})
unfolding reserve_bytes copy_in
receive block size b = bind (reserve_bytes (narrow b.width size) b) λ i. copy_in i block size

-- receiveAt (where, t), of the bytes of `t`
unfoldable pub receive_at : ℤ → List ℕ → M SendBuffer (Unit {0})
unfolding copy_in
receive_at at bs = copy_in at bs (pos (length bs))

-- receiveAt (where): the distance from behind the four bytes at `where` to the index
unfoldable pub receive_at_length : ℤ → M SendBuffer (Unit {0})
receive_at_length at b = receive_at at (le_bytes 4 (bits_of int32 (b.index -ℤ (at +ℤ pos 4)))) b

unfoldable pub fill_in_size : ℤ → M SendBuffer (Unit {0})
fill_in_size max b =
    let marshalled_bytes = narrow b.width (b.index -ℤ b.saved_size) in
    if ltb_ℤ max marshalled_bytes
    then raise "fillInSize" (int max ∷ []) b
    else (bind (receive_at b.saved_size (le_bytes (get_z b) (bits_of b.width marshalled_bytes)) b)
        λ _ b. ok tt (record b { saved_size = b.index }))

-- The id is given as its bytes.
unfoldable pub fill_in_hdr : ℤ → List ℕ → M SendBuffer (Unit {0})
fill_in_hdr max id b = bind (receive_at (b.saved_size +ℤ pos (get_z b)) id b) λ _. fill_in_size max

unfoldable pub reset : SendBuffer → SendBuffer
reset b = record b { saved_size = pos 0; index = pos 0 }

unfoldable pub rollback : SendBuffer → SendBuffer
rollback b = record b { index = b.saved_size }

-- receive (b, t) of an arithmetic `t`, given by its bytes
unfoldable pub receive_value : List ℕ → M SendBuffer (Unit {0})
unfolding receive
receive_value bs = receive bs (pos (length bs))

-- BufferStack::outDuo: the span that goes out
unfoldable pub out_duo : SendBuffer → List ℕ
out_duo b = take (pos_part b.index) b.buf
