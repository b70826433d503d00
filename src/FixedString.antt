-- ===== src/FixedString.antt =====
-- src/cmwBuffer.hh: FixedString<N>, a text in an array of N characters. N is the length of `str`; a
-- constructor starts from the array as it finds it.
pub mod Content
pub mod Travel
use onwards.Prelude.{
  ℕ, ◌+◌, ◌-◌, List, [], ◌∷◌, ℤ, pos, ◌+ℤ◌, ◌-ℤ◌, ltb_ℤ, leb, length, load, store, Width, int32,
  bits_of, if◌then◌else◌,
}
use onwards.Failure.{M, Run, ok, raised, fault, bind, raise, access, ◌>>◌}
use onwards.SendBuffer.{SendBuffer, receive}
use onwards.ReceiveBuffer.{ReceiveBuffer, give}
use onwards.MarshallingInt.{MarshallingInt, of_int, value, add_assign, marshal, read}

pub record FixedString : Type 0 where
  pub str : List ℕ
  pub len : MarshallingInt

-- ::std::memcpy(str+at,s.data(),n)
unfoldable pub copy_text : ℤ → List ℕ → ℤ → M FixedString (Unit {0})
copy_text at s n f =
    bind (access (load s (pos 0) n) f)
      λ bs f. bind (access (store f.str at bs) f) λ str f. ok tt (record f { str = str })

-- str[at]=0
unfoldable pub terminate : ℤ → M FixedString (Unit {0})
terminate at f = bind (access (store f.str at (0 ∷ [])) f) λ str f. ok tt (record f { str = str })

-- The constructor from a string_view
unfoldable pub construct : List ℕ → M FixedString (Unit {0})
construct s f =
    let m = of_int (pos (length s)) in
    if ltb_ℤ (value m) (pos (length f.str))
    then (copy_text (pos 0) s (value m) >> terminate (value m)) (record f { len = m })
    else raise "FixedString ctor" [] f

-- The rest of the stream constructor, once the length is read.
unfoldable pub take_in : List ℕ → MarshallingInt → M ReceiveBuffer FixedString
take_in str m b =
    if ltb_ℤ (value m) (pos (length str))
    then (bind (give (value m) b) λ bs b. bind (access (store str (pos 0) bs) b) λ str b.
        bind (access (store str (value m) (0 ∷ [])) b)
          λ str b. ok (record { str = str; len = m }) b)
    else raise "FixedString stream ctor" [] b

-- The stream constructor
unfoldable pub receive_from : List ℕ → M ReceiveBuffer FixedString
receive_from str b = bind (read b) λ m. take_in str m

-- operator= of a string_view writes no terminator.
unfoldable pub assign : List ℕ → M FixedString (Unit {0})
assign s f =
    if leb (length f.str) (length s)
    then raise "FixedString operator=" [] f
    else (let m = of_int (pos (length s)) in copy_text (pos 0) s (value m) (record f { len = m }))

-- The copy constructor, into an array `str` of the same N
unfoldable pub copy : FixedString → M FixedString (Unit {0})
copy o f = copy_text (pos 0) o.str (value o.len) (record f { len = o.len })

unfoldable pub marshal_fixed : FixedString → M SendBuffer (Unit {0})
marshal_fixed f = marshal f.len >> receive f.str (value f.len)

-- An unsigned int
unfoldable pub bytes_available : FixedString → ℕ
bytes_available f = bits_of int32 (pos (length f.str) -ℤ (value f.len +ℤ pos 1))

unfoldable pub append : List ℕ → M FixedString (Unit {0})
append s f =
    if leb (length s) (bytes_available f)
    then (bind (copy_text (value f.len) s (pos (length s)) f) λ _ f.
        let m = add_assign (pos (length s)) f.len in terminate (value m) (record f { len = m }))
    else ok tt f
