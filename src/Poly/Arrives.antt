-- ===== src/Poly/Arrives.antt =====
-- A collection of polymorphic objects arrives: every object, in the segment of its class.
use mathlib.Core.Path.{subst}
use onwards.Prelude.{
  ℕ, suc, ◌+◌, ◌%◌, ◌^◌, ◌≤◌, ◌<◌, ◌≡◌, refl, List, [], ◌∷◌, ◌++◌, true, false, narrow, narrow_pos,
  int32, half_range, Option, none, some, Width, length, le_bytes, arith, ◌∙◌,
}
use onwards.Failure.{◌>>◌}
use onwards.SendBuffer.{receive_value}
use onwards.SendBuffer.Emit.{Emits, >>-Emits}
use onwards.ReceiveBuffer.{give_value}
use onwards.ReceiveBuffer.Window.{Reads, return-Reads, >>=-Reads, give_byte-Reads}
use onwards.Wire.{Carries}
use onwards.Complex.{
  has_objects, Segment, marshal_segment, marshal_collection, build_collection, for_segments,
}
use onwards.Complex.Collection.{SegmentsEmit, sent, count_segments, marshal_collection-Emits}
use onwards.Poly.Objects.{SegmentOf, IsValid, tag, whole, segment-Reads}
use onwards.Poly.{
  Class, base_class, derived1_class, derived2_class, derived3_class, type_num, Object,
  marshal_members, Collection, empty, insert, segment, segments, base_switch, testing_give,
}

-- The segments of a collection as a list, and what becomes of them at the receiver: a class that is
-- registered and has no objects is not sent.
abbrev Parts : Type 0
Parts = List (Class × Option (List Object))

abbrev to_segments : Parts → List Segment
to_segments [] = []
to_segments ((t, o) ∷ ts) = segment t o ∷ to_segments ts

abbrev PartsOf : Parts → Type 0
PartsOf [] = Unit
PartsOf ((t, o) ∷ ts) = SegmentOf t o × PartsOf ts

abbrev insert_all : Parts → Collection → Collection
insert_all [] c = c
insert_all ((t, none) ∷ ts) c = insert_all ts c
insert_all ((t, some []) ∷ ts) c = insert_all ts c
insert_all ((t, some (x ∷ xs)) ∷ ts) c = insert_all ts (insert t (x ∷ xs) c)

record Packed (w : Width) (ts : Parts) : Type 0 where
  texts : List (List ℕ)
  each : SegmentsEmit w (to_segments ts) texts
  reads :
      (c : Collection)
      → Reads
          (for_segments base_switch (count_segments (to_segments ts)) c)
          (sent (to_segments ts) texts)
          (insert_all ts c)

has :
    (t : Class) (x : Object) (xs : List Object)
    → length (x ∷ xs) < half_range int32
    → has_objects (segment t (some (x ∷ xs))) ≡ true
unfolding segment
has t x xs h = rw (narrow_pos int32 (length (x ∷ xs)) h) (ground arith)

has_none : (t : Class) → has_objects (segment t (some [])) ≡ false
unfolding segment
has_none t = rw (narrow_pos int32 0 (omega arith)) refl

count_small : (ts : Parts) → PartsOf ts → count_segments (to_segments ts) ≤ length ts
unfolding segment
count_small [] h = omega arith
count_small ((t, none) ∷ ts) h = omega (arith, count_small ts h.1)
count_small ((t, some []) ∷ ts) h = rw (has_none t) (omega (arith, count_small ts h.1))
count_small ((t, some (x ∷ xs)) ∷ ts) h = rw (has t x xs h.0.1) (omega (arith, count_small ts h.1))

nothing-Emits :
    (w : Width) (t : Class)
    → Emits w
        (receive_value (le_bytes 1 (type_num t)) >> marshal_segment marshal_members [])
        ((tag w t).bytes ++ (whole w t [] (tt, omega arith)).bytes)
nothing-Emits w t = >>-Emits w (tag w t).emits (whole w t [] (tt, omega arith)).emits

packed : (w : Width) (ts : Parts) → PartsOf ts → length ts < 256 → Packed w ts
unfolding segment for_segments narrow
packed w [] h small = record { texts = []; each = tt; reads = λ c. return-Reads c }
packed w ((t, none) ∷ ts) h small =
    let rest = packed w ts h.1 (omega arith) in
    record { texts = _ ∷ rest.texts; each = (nothing-Emits w t, rest.each); reads = rest.reads }
packed w ((t, some []) ∷ ts) h small =
    let rest = packed w ts h.1 (omega arith) in
    record { texts = _ ∷ rest.texts; each = (nothing-Emits w t, rest.each); reads = rest.reads }
packed w ((t, some (x ∷ xs)) ∷ ts) h small =
    let rest = packed w ts h.1 (omega arith) in
    let n = count_segments (to_segments ts) in
    let one_more : (1 + n) % 256 ≡ suc n = omega (arith, count_small ts h.1) in
    record {
      texts = ((tag w t).bytes ++ (whole w t (x ∷ xs) h.0).bytes) ∷ rest.texts;
      each = (>>-Emits w (tag w t).emits (whole w t (x ∷ xs) h.0).emits, rest.each);
      reads = λ c.
          rw (has t x xs h.0.1, one_more)
            (>>=-Reads (base_switch c) (λ c. for_segments base_switch n c)
              ((tag w t).bytes ++ (whole w t (x ∷ xs) h.0).bytes) (sent (to_segments ts) rest.texts)
              (insert t (x ∷ xs) c) (insert_all ts (insert t (x ∷ xs) c))
              (segment-Reads w t (x ∷ xs) h.0 c) (rest.reads (insert t (x ∷ xs) c)));
    }

-- What arrives
abbrev pub kept : Option (List Object) → Option (List Object)
kept none = none
kept (some []) = none
kept (some (x ∷ xs)) = some (x ∷ xs)

abbrev pub arrived : Collection → Collection
arrived a = record {
  bases = kept a.bases;
  derived1s = kept a.derived1s;
  derived3s = kept a.derived3s;
  derived2s = kept a.derived2s;
}

abbrev parts : Collection → Parts
parts a =
    (base_class, a.bases)
    ∷ (derived1_class, a.derived1s)
    ∷ (derived3_class, a.derived3s)
    ∷ (derived2_class, a.derived2s)
    ∷ []

-- The segments in turn, each into the collection of those before
bases-placed :
    (o : Option (List Object)) (ts : Parts) (e f g : Option (List Object))
    → insert_all
        ((base_class, o) ∷ ts)
        (record { bases = none; derived1s = e; derived3s = f; derived2s = g })
      ≡ insert_all ts (record { bases = kept o; derived1s = e; derived3s = f; derived2s = g })
unfolding insert
bases-placed none ts e f g = refl
bases-placed (some []) ts e f g = refl
bases-placed (some (x ∷ xs)) ts e f g = refl

derived1s-placed :
    (o : Option (List Object)) (ts : Parts) (d f g : Option (List Object))
    → insert_all
        ((derived1_class, o) ∷ ts)
        (record { bases = d; derived1s = none; derived3s = f; derived2s = g })
      ≡ insert_all ts (record { bases = d; derived1s = kept o; derived3s = f; derived2s = g })
unfolding insert
derived1s-placed none ts d f g = refl
derived1s-placed (some []) ts d f g = refl
derived1s-placed (some (x ∷ xs)) ts d f g = refl

derived3s-placed :
    (o : Option (List Object)) (ts : Parts) (d e g : Option (List Object))
    → insert_all
        ((derived3_class, o) ∷ ts)
        (record { bases = d; derived1s = e; derived3s = none; derived2s = g })
      ≡ insert_all ts (record { bases = d; derived1s = e; derived3s = kept o; derived2s = g })
unfolding insert
derived3s-placed none ts d e g = refl
derived3s-placed (some []) ts d e g = refl
derived3s-placed (some (x ∷ xs)) ts d e g = refl

derived2s-placed :
    (o : Option (List Object)) (ts : Parts) (d e f : Option (List Object))
    → insert_all
        ((derived2_class, o) ∷ ts)
        (record { bases = d; derived1s = e; derived3s = f; derived2s = none })
      ≡ insert_all ts (record { bases = d; derived1s = e; derived3s = f; derived2s = kept o })
unfolding insert
derived2s-placed none ts d e f = refl
derived2s-placed (some []) ts d e f = refl
derived2s-placed (some (x ∷ xs)) ts d e f = refl

insert_all-parts : (a : Collection) → insert_all (parts a) empty ≡ arrived a
insert_all-parts a =
    bases-placed a.bases _ none none none
    ∙ derived1s-placed a.derived1s _ (kept a.bases) none none
    ∙ derived3s-placed a.derived3s _ (kept a.bases) (kept a.derived1s) none
    ∙ derived2s-placed a.derived2s [] (kept a.bases) (kept a.derived1s) (kept a.derived3s)

-- If every object of a collection stands in the segment of its class, with members of their
-- types, and each segment has fewer than 2 to the 31 objects, then marshalCollection writes bytes
-- from which testing::give fills an empty collection with the same objects, in the same order; a
-- class that has no objects does not arrive.
pub marshal_collection-Carries :
    (w : Width) (a : Collection)
    → IsValid a
    → Carries w (marshal_collection (segments a)) (testing_give empty) (arrived a)
unfolding testing_give segments build_collection
marshal_collection-Carries w a valid =
    let all =
      packed w (parts a)
        (valid.bases_of, (valid.derived1s_of, (valid.derived3s_of, (valid.derived2s_of, tt))))
        (omega arith) in
    let count = count_segments (to_segments (parts a)) in
    let few : count < 256 ^ 1 = omega (arith, count_small (parts a)) in
    let objects = sent (to_segments (parts a)) all.texts in
    record {
      bytes = count ∷ objects;
      emits = marshal_collection-Emits w (to_segments (parts a)) all.texts all.each;
      reads =
          >>=-Reads (give_value 1) (λ n. for_segments base_switch n empty) (count ∷ []) objects
            count (arrived a) (give_byte-Reads count (omega arith))
            (subst (Reads (for_segments base_switch count empty) objects) (insert_all-parts a)
              (all.reads empty));
    }
