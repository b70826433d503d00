-- ===== src/Poly.antt =====
-- example/poly/base.hh and example/poly/testing.mdl.hh: a collection of polymorphic objects, and the
-- message that carries it. A number is given by its bit pattern. The collection is boost's: an object
-- is kept in the segment of its class, and a class is registered once it has had an object. After an
-- exception the model drops the collection that testing::give was filling.
pub mod Objects
pub mod Arrives
pub mod Programs
pub mod Runs
pub mod Sizes
use onwards.Prelude.{
  ℕ, zero, suc, List, [], ◌∷◌, ◌++◌, Bool, true, false, Option, none, some, ◌==◌, if◌then◌else◌,
  le_bytes,
}
use onwards.Failure.{M, ok, ◌>>◌, ◌>>=◌, return, raise}
use onwards.SendBuffer.{SendBuffer, receive_value}
use onwards.ReceiveBuffer.{ReceiveBuffer, give_value}
use onwards.Complex.{Segment, marshal_collection, build_segment, build_collection}
use onwards.Messages.{marshal_sized}

-- The classes, with their typeNum
pub data Class : Type 0 where
  base_class derived1_class derived2_class derived3_class : Class

unfoldable pub type_num : Class → ℕ
type_num base_class = 0
type_num derived1_class = 1
type_num derived2_class = 2
type_num derived3_class = 3

-- derived3 has the member of derived1 and a double.
pub data Object : Type 0 where
  base : Object
  derived1 derived2 : ℕ → Object
  derived3 : (a c : ℕ) → Object

-- marshalMembers of each class calls that of its base first.
abbrev pub marshal_base : M SendBuffer (Unit {0})
marshal_base b = ok tt b

abbrev pub marshal_derived1 : ℕ → M SendBuffer (Unit {0})
marshal_derived1 a = marshal_base >> receive_value (le_bytes 4 a)

abbrev pub marshal_derived2 : ℕ → M SendBuffer (Unit {0})
marshal_derived2 n = marshal_base >> receive_value (le_bytes 4 n)

abbrev pub marshal_derived3 : (a c : ℕ) → M SendBuffer (Unit {0})
marshal_derived3 a c = marshal_derived1 a >> receive_value (le_bytes 8 c)

-- The virtual call
unfoldable pub marshal_members : Object → M SendBuffer (Unit {0})
marshal_members base = marshal_base
marshal_members (derived1 a) = marshal_derived1 a
marshal_members (derived2 n) = marshal_derived2 n
marshal_members (derived3 a c) = marshal_derived3 a c

-- The constructors from the stream
abbrev pub give_base : M ReceiveBuffer Object
give_base = return base

abbrev pub give_derived1 : M ReceiveBuffer Object
give_derived1 = give_value 4 >>= λ a. return (derived1 a)

abbrev pub give_derived2 : M ReceiveBuffer Object
give_derived2 = give_value 4 >>= λ n. return (derived2 n)

abbrev pub give_derived3 : M ReceiveBuffer Object
give_derived3 = give_value 4 >>= λ a. give_value 8 >>= λ c. return (derived3 a c)

unfoldable pub construct : Class → M ReceiveBuffer Object
construct base_class = give_base
construct derived1_class = give_derived1
construct derived2_class = give_derived2
construct derived3_class = give_derived3

-- The segments, each registered or not
pub record Collection : Type 0 where
  pub bases : Option (List Object)
  pub derived1s : Option (List Object)
  pub derived3s : Option (List Object)
  pub derived2s : Option (List Object)

abbrev pub empty : Collection
empty = record { bases = none; derived1s = none; derived3s = none; derived2s = none }

-- reserve registers a class, and emplace adds at the end.
abbrev pub extend : Option (List Object) → List Object → Option (List Object)
extend none xs = some xs
extend (some ys) xs = some (ys ++ xs)

unfoldable pub insert : Class → List Object → Collection → Collection
insert base_class xs c = record c { bases = extend c.bases xs }
insert derived1_class xs c = record c { derived1s = extend c.derived1s xs }
insert derived2_class xs c = record c { derived2s = extend c.derived2s xs }
insert derived3_class xs c = record c { derived3s = extend c.derived3s xs }

unfoldable pub segment : Class → Option (List Object) → Segment
segment t none = record {
  type_num = le_bytes 1 (type_num t);
  registered = false;
  Element = Object;
  write = marshal_members;
  elements = [];
}
segment t (some xs) = record {
  type_num = le_bytes 1 (type_num t);
  registered = true;
  Element = Object;
  write = marshal_members;
  elements = xs;
}

-- The order of marshalCollection<base,derived1,derived3,derived2>
unfoldable pub segments : Collection → List Segment
segments c =
    segment base_class c.bases
    ∷ segment derived1_class c.derived1s
    ∷ segment derived3_class c.derived3s
    ∷ segment derived2_class c.derived2s
    ∷ []

-- testing::marshal
unfoldable pub testing_marshal : ℕ → Collection → M SendBuffer (Unit {0})
testing_marshal max_length a = marshal_sized max_length (marshal_collection (segments a))

unfoldable pub build_class : Class → Collection → M ReceiveBuffer Collection
build_class t c = build_segment (construct t) >>= λ xs. return (insert t xs c)

unfoldable pub class_of : ℕ → Option Class
class_of n =
    if n == 0
    then some base_class
    else if n == 1
    then some derived1_class
    else if n == 3
    then some derived3_class
    else if n == 2
    then some derived2_class
    else none

unfoldable pub build_known : Option Class → Collection → M ReceiveBuffer Collection
unfolding build_class
build_known none c = raise "baseSwitch: Unknown type" []
build_known (some t) c = build_class t c

unfoldable pub base_switch : Collection → M ReceiveBuffer Collection
unfolding build_known class_of
base_switch c = give_value 1 >>= λ n. build_known (class_of n) c

-- testing::give
unfoldable pub testing_give : Collection → M ReceiveBuffer Collection
testing_give a = build_collection base_switch a
