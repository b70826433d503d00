-- ===== src/Tests/Polymorphic.antt =====
-- The receiver of polymorphic objects at a concrete input.
use onwards.Prelude.{
  ℕ, ◌≡◌, refl, [], ℤ, pos, Option, none, some, length, zeros, length-zeros, arith,
}
use onwards.Failure.{Failure, Run, ok, raised, fault, codes}
use onwards.SendBuffer.{SendBuffer}
use onwards.Sockets.{Sockaddr}
use onwards.Example.{waits}
use onwards.Poly.{testing_marshal}
use onwards.Prelude.{load, store, narrow, bits_of, signed, le_bytes, ◌+ℤ◌, ◌-ℤ◌}
use onwards.SendBuffer.{
  init, reserve_bytes, receive, receive_value, copy_in, receive_at, fill_in_size, get_z,
}
use onwards.Complex.{marshal_collection, marshal_segments, marshal_segment, receive_elements}
use onwards.Messages.{marshal_sized, reserve}
use onwards.Poly.{insert, segments, segment, type_num, marshal_members}
use onwards.Poly.Programs.{SizeOf, two_objects, receive_poly_main}
use onwards.Poly.Runs.{Sent, new_out}
use onwards.Poly.Sizes.{Messages, next, last, datagrams, reports, receive_poly_main-sizes}

abbrev state_of : Run SendBuffer (Unit {0}) → SendBuffer
state_of (ok t b) = b
state_of (raised e b) = b
state_of fault = new_out

two_objects_lem :
    testing_marshal 10000 two_objects new_out
    ≡ ok tt (state_of (testing_marshal 10000 two_objects new_out))
unfolding two_objects insert testing_marshal init marshal_collection segments segment
    marshal_segments marshal_segment receive_elements marshal_sized reserve reserve_bytes receive
    receive_value copy_in load store receive_at fill_in_size get_z narrow bits_of signed le_bytes
    ◌+ℤ◌ ◌-ℤ◌ type_num marshal_members
two_objects_lem = refl

two_objects-Sent : Sent two_objects
unfolding two_objects insert
two_objects-Sent = record {
  valid = record {
    bases_of = tt;
    derived1s_of = ((omega arith, tt), omega arith);
    derived3s_of = (((omega arith, omega arith), tt), omega arith);
    derived2s_of = tt;
  };
  made = state_of (testing_marshal 10000 two_objects new_out);
  marshalled = two_objects_lem;
}

two_messages : Messages
unfolding two_objects insert
two_messages =
    next two_objects two_objects-Sent ((_, refl), (_, refl))
      (next two_objects two_objects-Sent ((_, refl), (_, refl)) last)

abbrev not_registered : Failure
not_registered = record { st = codes "type not registered" }

abbrev size_of : SizeOf
size_of none = raised not_registered
size_of (some xs) = ok (length xs)

abbrev free : ℤ → Sockaddr → Option ℕ
free s sa = none

receive_poly_main-sizes_example :
    receive_poly_main size_of (pos 4) free (zeros 1500) (datagrams two_messages [])
    ≡ some (waits (reports two_messages))
receive_poly_main-sizes_example =
    receive_poly_main-sizes size_of (λ xs p. refl) (pos 4) free (zeros 1500) (length-zeros 1500)
      refl two_messages
