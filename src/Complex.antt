-- ===== src/Complex.antt =====
-- src/cmwComplex.hh: complex numbers, and the segments of a collection of polymorphic objects. A number
-- is given by its bytes; how an object is written and made from the stream is a parameter.
pub mod Collection
use onwards.Prelude.{
  ℕ, zero, suc, ◌+◌, ◌%◌, ◌^◌, ◌<◌, List, [], ◌∷◌, ℤ, pos, negsuc, Bool, ◌&&◌, if◌then◌else◌, ltb,
  ltb_ℤ, narrow, length, Width, int16, int32, bits_of, bits_of_pos, signed, signed_pos, pos_part,
  half_range, le_bytes, length-le_bytes, append-nil, arith,
}
use mathlib.Core.Path.{subst}
use onwards.Failure.{M, ok, ◌>>◌, ◌>>=◌, return, raise}
use onwards.SendBuffer.{SendBuffer, receive_value, reserve_bytes, receive_at}
use onwards.SendBuffer.Emit.{receive_value-Emits, skip-Emits}
use onwards.ReceiveBuffer.{ReceiveBuffer, give_value}
use onwards.ReceiveBuffer.Window.{Reads, give_value-Reads, return-Reads, >>=-Reads}
use onwards.Wire.{Carries, >>-Carries}

unfoldable pub complex_marshal : List ℕ → List ℕ → M SendBuffer (Unit {0})
complex_marshal re im = receive_value re >> receive_value im

-- complexGive of numbers of `k` bytes
unfoldable pub complex_give : ℕ → M ReceiveBuffer (ℕ × ℕ)
complex_give k = give_value k >>= λ re. give_value k >>= λ im. return (re, im)

-- The objects of one type: `registered` is what is_registered says.
pub record Segment : Type 1 where
  pub type_num : List ℕ
  pub registered : Bool
  pub Element : Type 0
  pub write : Element → M SendBuffer (Unit {0})
  pub elements : List Element

-- `for(T const& t:...){t.marshal(buf);}`
unfoldable pub receive_elements :
    {A : Type 0} → (A → M SendBuffer (Unit {0})) → List A → M SendBuffer (Unit {0})
receive_elements write [] = λ b. ok tt b
receive_elements write (x ∷ xs) = write x >> receive_elements write xs

unfoldable pub marshal_segment :
    {A : Type 0} → (A → M SendBuffer (Unit {0})) → List A → M SendBuffer (Unit {0})
unfolding receive_elements
marshal_segment write xs =
    receive_value (le_bytes 4 (bits_of int32 (pos (length xs)))) >> receive_elements write xs

-- marshalSegments, which counts in a uint8_t
-- The number of objects is an int32_t.
abbrev pub has_objects : Segment → Bool
has_objects c = c.registered && ltb_ℤ (pos 0) (narrow int32 (pos (length c.elements)))

unfoldable pub marshal_segments : List Segment → M SendBuffer ℕ
unfolding marshal_segment
marshal_segments [] = return 0
marshal_segments (c ∷ cs) =
    let rest = marshal_segments cs in
    let some_of_it =
      receive_value c.type_num
      >> marshal_segment c.write c.elements
      >> (rest >>= λ segs. return ((1 + segs) % 256)) in
    if has_objects c then some_of_it else rest

unfoldable pub marshal_collection : List Segment → M SendBuffer (Unit {0})
unfolding marshal_segments
marshal_collection cs =
    reserve_bytes (pos 1) >>= λ ind. marshal_segments cs >>= λ segs. receive_at ind (segs ∷ [])

-- `for(;n>0;--n){c.template emplace<T>(buf);}`
unfoldable pub give_elements : {A : Type 0} → M ReceiveBuffer A → ℕ → M ReceiveBuffer (List A)
give_elements parse zero = return []
give_elements parse (suc n) = parse >>= λ x. give_elements parse n >>= λ xs. return (x ∷ xs)

-- reserve<T>(n): a negative number becomes a size_t that no vector can hold.
unfoldable pub reserve_elements : ℤ → M ReceiveBuffer (Unit {0})
reserve_elements (pos n) = return tt
reserve_elements (negsuc n) = raise "vector::reserve" []

unfoldable pub build_segment : {A : Type 0} → M ReceiveBuffer A → M ReceiveBuffer (List A)
unfolding give_elements reserve_elements
build_segment parse = give_value 4 >>= λ n.
    reserve_elements (signed int32 n) >> give_elements parse (pos_part (signed int32 n))

-- `for(;segs>0;--segs){f(c,buf);}`
unfoldable pub for_segments : {C : Type 0} → (C → M ReceiveBuffer C) → ℕ → C → M ReceiveBuffer C
for_segments f zero c = return c
for_segments f (suc segs) c = f c >>= λ c. for_segments f segs c

-- buildCollection, into the collection `c`
unfoldable pub build_collection : {C : Type 0} → (C → M ReceiveBuffer C) → C → M ReceiveBuffer C
unfolding for_segments
build_collection f c = give_value 1 >>= λ segs. for_segments f segs c

-- A number
pub number-Carries :
    (w : Width) (k n : ℕ)
    → n < 256 ^ k
    → k < half_range w
    → Carries w (receive_value (le_bytes k n)) (give_value k) n
number-Carries w k n h small = record {
  bytes = le_bytes k n;
  emits = receive_value-Emits w (le_bytes k n) (omega (arith, length-le_bytes k n));
  reads = give_value-Reads k n h;
}

-- A value that something is done with before it is returned
pub mapped-Reads :
    {A B : Type 0} (parse : M ReceiveBuffer A) (f : A → B) (bs : List ℕ) (a : A)
    → Reads parse bs a
    → Reads (parse >>= λ a. return (f a)) bs (f a)
mapped-Reads parse f bs a r =
    subst (λ t. Reads (parse >>= λ a. return (f a)) t (f a)) (append-nil bs)
      (>>=-Reads parse (λ a b. ok (f a) b) bs [] a (f a) r (return-Reads (f a)))

pub mapped-Carries :
    {A B : Type 0} {w : Width} {m : M SendBuffer (Unit {0})} {parse : M ReceiveBuffer A} (f : A → B)
    {a : A}
    → Carries w m parse a
    → Carries w m (parse >>= λ a. return (f a)) (f a)
mapped-Carries {parse} f {a} c = record {
  bytes = c.bytes;
  emits = c.emits;
  reads = mapped-Reads parse f c.bytes a c.reads;
}

-- A complex number, whose parts are numbers of a size in bytes that the index type can hold, is
-- written as bytes from which complexGive returns its real and its imaginary part in this order.
pub complex_marshal-Carries :
    (w : Width) (k re im : ℕ)
    → re < 256 ^ k
    → im < 256 ^ k
    → k < half_range w
    → Carries w (complex_marshal (le_bytes k re) (le_bytes k im)) (complex_give k) (re, im)
unfolding complex_marshal complex_give
complex_marshal-Carries w k re im h i small =
    >>-Carries (λ re. give_value k >>= λ im. return (re, im)) (number-Carries w k re h small)
      (mapped-Carries (λ im. (re, im)) (number-Carries w k im i small))

-- What is written of each object is what its constructor reads.
abbrev pub EachCarries :
    {A : Type 0} → Width → (A → M SendBuffer (Unit {0})) → M ReceiveBuffer A → List A → Type 0
EachCarries w write parse [] = Unit
EachCarries w write parse (x ∷ xs) = Carries w (write x) parse x × EachCarries w write parse xs

receive_elements-Carries :
    {A : Type 0} (w : Width) (write : A → M SendBuffer (Unit {0})) (parse : M ReceiveBuffer A)
    (xs : List A)
    → EachCarries w write parse xs
    → Carries w (receive_elements write xs) (give_elements parse (length xs)) xs
unfolding receive_elements give_elements
receive_elements-Carries w write parse [] each = record {
  bytes = [];
  emits = skip-Emits w;
  reads = return-Reads [];
}
receive_elements-Carries w write parse (x ∷ xs) each =
    >>-Carries (λ x. give_elements parse (length xs) >>= λ xs. return (x ∷ xs)) each.0
      (mapped-Carries (λ xs. x ∷ xs) (receive_elements-Carries w write parse xs each.1))

four-lt : (w : Width) → 4 < half_range w
four-lt int16 = omega arith
four-lt int32 = omega arith

-- If every object is written so that its constructor from the stream returns it, then the objects
-- of a segment, fewer than 2 to the 31, are written behind their number so that buildSegment
-- returns them all, in their order.
pub marshal_segment-Carries :
    {A : Type 0} (w : Width) (write : A → M SendBuffer (Unit {0})) (parse : M ReceiveBuffer A)
    (xs : List A)
    → EachCarries w write parse xs
    → length xs < half_range int32
    → Carries w (marshal_segment write xs) (build_segment parse) xs
unfolding marshal_segment build_segment reserve_elements
marshal_segment-Carries w write parse xs each h = rw (bits_of_pos int32 (length xs) h) (
    >>-Carries
      (λ n. reserve_elements (signed int32 n) >> give_elements parse (pos_part (signed int32 n)))
      (number-Carries w 4 (length xs) (omega arith) (four-lt w))
      (rw (signed_pos int32 (length xs) h) (receive_elements-Carries w write parse xs each)))
