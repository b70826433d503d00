-- ===== src/Poly/Objects.antt =====
-- The objects of one class, written as a segment and read back into a collection (example/poly)

use onwards.Prelude.{
  ℕ, ◌^◌, ◌<◌, ◌≡◌, refl, List, [], ◌∷◌, ◌++◌, Option, none, some, Width, int16, int32, half_range,
  length, le_bytes, arith,
}
use onwards.Failure.{M, ok, ◌>>◌, ◌>>=◌, return}
use onwards.SendBuffer.{SendBuffer, receive_value}
use onwards.SendBuffer.Emit.{>>-Emits, skip-Emits}
use onwards.ReceiveBuffer.{ReceiveBuffer, give_value}
use onwards.ReceiveBuffer.Window.{Reads, return-Reads, >>=-Reads}
use onwards.Wire.{Carries, >>-Carries}
use onwards.Complex.{
  marshal_segment, build_segment, number-Carries, mapped-Carries, mapped-Reads, EachCarries,
  marshal_segment-Carries,
}
use onwards.Poly.{
  Class, base_class, derived1_class, derived2_class, derived3_class, type_num, Object, base,
  derived1, derived2, derived3, marshal_members, construct, Collection, insert, build_class,
  class_of, build_known, base_switch,
}

-- The object is one of the class, and its members are of their types.
abbrev pub IsOf : Class → Object → Type 0
IsOf base_class base = Unit
IsOf derived1_class (derived1 a) = a < 256 ^ 4
IsOf derived2_class (derived2 n) = n < 256 ^ 4
IsOf derived3_class (derived3 a c) = (a < 256 ^ 4) × (c < 256 ^ 8)
IsOf _ _ = ⊥

abbrev pub AllOf : Class → List Object → Type 0
AllOf t [] = Unit
AllOf t (x ∷ xs) = IsOf t x × AllOf t xs

-- What a collection keeps: objects in the segment of their class, fewer than 2 to the 31 in each
abbrev pub SegmentOf : Class → Option (List Object) → Type 0
SegmentOf t none = Unit
SegmentOf t (some xs) = AllOf t xs × (length xs < half_range int32)

pub record IsValid (a : Collection) : Type 0 where
  pub bases_of : SegmentOf base_class a.bases
  pub derived1s_of : SegmentOf derived1_class a.derived1s
  pub derived3s_of : SegmentOf derived3_class a.derived3s
  pub derived2s_of : SegmentOf derived2_class a.derived2s

eight-lt : (w : Width) → 8 < half_range w
eight-lt int16 = omega arith
eight-lt int32 = omega arith

module _ (w : Width) where
  after_base :
      {A : Type 0} {m : M SendBuffer (Unit {0})} {parse : M ReceiveBuffer A} {a : A}
      → Carries w m parse a
      → Carries w ((λ b. ok tt b) >> m) parse a
  after_base c = record {
    bytes = c.bytes;
    emits = >>-Emits w (skip-Emits w) c.emits;
    reads = c.reads;
  }

  four_bytes :
      (n : ℕ)
      → n < 256 ^ 4
      → Carries w ((λ b. ok tt b) >> receive_value (le_bytes 4 n)) (give_value 4) n
  four_bytes n h = after_base (number-Carries w 4 n h (omega (arith, eight-lt w)))

  marshal_members-Carries :
      (t : Class) (x : Object) → IsOf t x → Carries w (marshal_members x) (construct t) x
  unfolding marshal_members construct
  marshal_members-Carries base_class base h = record {
    bytes = [];
    emits = skip-Emits w;
    reads = return-Reads base;
  }
  marshal_members-Carries base_class (derived1 a) h = absurd h
  marshal_members-Carries base_class (derived2 n) h = absurd h
  marshal_members-Carries base_class (derived3 a c) h = absurd h
  marshal_members-Carries derived1_class base h = absurd h
  marshal_members-Carries derived1_class (derived1 a) h =
      mapped-Carries (λ a. derived1 a) (four_bytes a h)
  marshal_members-Carries derived1_class (derived2 n) h = absurd h
  marshal_members-Carries derived1_class (derived3 a c) h = absurd h
  marshal_members-Carries derived2_class base h = absurd h
  marshal_members-Carries derived2_class (derived1 a) h = absurd h
  marshal_members-Carries derived2_class (derived2 n) h =
      mapped-Carries (λ n. derived2 n) (four_bytes n h)
  marshal_members-Carries derived2_class (derived3 a c) h = absurd h
  marshal_members-Carries derived3_class base h = absurd h
  marshal_members-Carries derived3_class (derived1 a) h = absurd h
  marshal_members-Carries derived3_class (derived2 n) h = absurd h
  marshal_members-Carries derived3_class (derived3 a c) h =
      >>-Carries (λ a. give_value 8 >>= λ c. return (derived3 a c)) (four_bytes a h.0)
        (mapped-Carries (λ c. derived3 a c) (number-Carries w 8 c h.1 (eight-lt w)))

  objects-Carries :
      (t : Class) (xs : List Object) → AllOf t xs → EachCarries w marshal_members (construct t) xs
  objects-Carries t [] h = tt
  objects-Carries t (x ∷ xs) h = (marshal_members-Carries t x h.0, objects-Carries t xs h.1)

  type_num_small : (t : Class) → type_num t < 256 ^ 1
  unfolding type_num
  type_num_small base_class = omega arith
  type_num_small derived1_class = omega arith
  type_num_small derived2_class = omega arith
  type_num_small derived3_class = omega arith

  class_of-type_num : (t : Class) → class_of (type_num t) ≡ some t
  unfolding class_of type_num
  class_of-type_num base_class = refl
  class_of-type_num derived1_class = refl
  class_of-type_num derived2_class = refl
  class_of-type_num derived3_class = refl

  pub tag :
      (t : Class) → Carries w (receive_value (le_bytes 1 (type_num t))) (give_value 1) (type_num t)
  tag t = number-Carries w 1 (type_num t) (type_num_small t) (omega (arith, eight-lt w))

  pub whole :
      (t : Class) (xs : List Object)
      → SegmentOf t (some xs)
      → Carries w (marshal_segment marshal_members xs) (build_segment (construct t)) xs
  whole t xs h =
      marshal_segment-Carries w marshal_members (construct t) xs (objects-Carries t xs h.0) h.1

  -- One segment, into any collection
  pub segment-Reads :
      (t : Class) (xs : List Object) (h : SegmentOf t (some xs)) (c : Collection)
      → Reads (base_switch c) ((tag t).bytes ++ (whole t xs h).bytes) (insert t xs c)
  unfolding base_switch build_known build_class
  segment-Reads t xs h c =
      >>=-Reads (give_value 1) (λ n. build_known (class_of n) c) (tag t).bytes (whole t xs h).bytes
        (type_num t) (insert t xs c) (tag t).reads
        (rw (class_of-type_num t) (
          mapped-Reads (build_segment (construct t)) (λ xs. insert t xs c) (whole t xs h).bytes xs
            (whole t xs h).reads))
