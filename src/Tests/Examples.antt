-- ===== src/Tests/Examples.antt =====
-- The example of polymorphic objects at concrete inputs.
use onwards.Prelude.{[], ◌∷◌, none, some, int16, arith}
use onwards.Wire.{Carries}
use onwards.Complex.{marshal_collection}
use onwards.Poly.{Collection, base, derived3, segments, testing_give, empty}
use onwards.Poly.Arrives.{marshal_collection-Carries, arrived}

-- Two objects of base, one of derived3, and derived2 registered without objects
abbrev objects : Collection
objects = record {
  bases = some (base ∷ base ∷ []);
  derived1s = none;
  derived3s = some (derived3 7 1 ∷ []);
  derived2s = some [];
}

marshal_collection-Carries_example :
    Carries int16 (marshal_collection (segments objects)) (testing_give empty) (arrived objects)
marshal_collection-Carries_example = marshal_collection-Carries int16 objects (record {
  bases_of = ((tt, (tt, tt)), omega arith);
  derived1s_of = tt;
  derived3s_of = (((omega arith, omega arith), tt), omega arith);
  derived2s_of = (tt, omega arith);
})
