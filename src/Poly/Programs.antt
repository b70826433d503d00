-- ===== src/Poly/Programs.antt =====
-- example/poly/sendPoly.cc and receivePoly.cc: one message with a collection is sent, and the receiver
-- prints what is in those that come. size<T>() of a collection, which is boost's, is a parameter.
use onwards.Prelude.{ℕ, ◌+◌, List, [], ◌∷◌, ◌++◌, ℤ, pos, negsuc, Option, none, some, length}
use onwards.Failure.{M, Run, ok, raised, fault, bind, ◌>>=◌, ◌>>◌, return, codes, to_chars}
use onwards.Io.{Reply}
use onwards.Sockets.{
  Sockaddr, udp_server, Addrinfo, GetaddrinfoWrapper, Resolved, getaddrinfo_wrapper, get_sock,
  current,
}
use onwards.Client.{Stack, Received, get_packet, send_to, wrote, buffer_stack}
use onwards.Example.{Program, on_stack, print, reading, end_line, Outcome, outcome, listening}
use onwards.Poly.{
  Object, derived1_class, derived3_class, derived1, derived3, Collection, empty, insert,
  testing_marshal, testing_give,
}

-- `c.insert(derived1{}); c.insert(derived3{});` with 0 and 3.14
unfoldable pub two_objects : Collection
unfolding insert
two_objects =
    insert derived3_class (derived3 0 0x4009_1eb8_51eb_851f ∷ [])
      (insert derived1_class (derived1 0 ∷ []) empty)

-- main of the sender behind the lookup: `at` is what ai_addr points to. It has no handler, and an
-- exception ends the process by terminate.
unfoldable pub send_poly_on :
    (Addrinfo → Sockaddr) → Reply → List ℕ → Run GetaddrinfoWrapper ℤ → Run Stack ℕ
unfolding two_objects
send_poly_on at r ar (ok s ai) = elim (current ai) [
  | none ↦ fault
  | some a ↦
      let stack = buffer_stack ar s in
      bind (wrote stack (testing_marshal 10000 two_objects stack.out)) λ _. send_to r (at a)
]
send_poly_on at r ar (raised e ai) = raised e (buffer_stack ar (negsuc 0))
send_poly_on at r ar fault = fault

-- main, where getaddrinfo finds these addresses for 127.0.0.1 and port 13579
unfoldable pub send_poly :
    Resolved → (Addrinfo → ℤ) → (Addrinfo → Sockaddr) → Reply → List ℕ → Run Stack ℕ
unfolding send_poly_on getaddrinfo_wrapper get_sock
send_poly found socket at r ar =
    send_poly_on at r ar (
      bind (getaddrinfo_wrapper found (record { head = []; addr = [] })) λ ai _. get_sock socket ai)

-- What size<T>() does on the segment of T, if T is registered, or without one
abbrev pub SizeOf : Type 0
SizeOf = Option (List Object) → M Program ℕ

abbrev pub count_of : Option (List Object) → ℕ
count_of none = 0
count_of (some xs) = length xs

-- size() of a collection
abbrev pub size_of_all : Collection → ℕ
size_of_all c =
    count_of c.bases + count_of c.derived1s + count_of c.derived3s + count_of c.derived2s

abbrev pub print_number : ℕ → M Program (Unit {0})
print_number n = print (to_chars (pos n) ++ end_line)

unfoldable pub print_sizes : SizeOf → Collection → M Program (Unit {0})
print_sizes size_of b =
    print (codes "size is ")
    >> print_number (size_of_all b)
    >> print (codes "number of derived1 is ")
    >> (size_of b.derived1s >>= print_number)
    >> print (codes "number of derived3 is ")
    >> (size_of b.derived3s >>= print_number)

-- The loop of the receiver and its main
unfoldable pub receive_poly_loop : SizeOf → List Received → M Program (Unit {0})
unfolding print_sizes
receive_poly_loop size_of [] = return tt
receive_poly_loop size_of (r ∷ rs) = (λ p. on_stack p (get_packet r p.stack)) >>= λ here.
    reading (testing_give empty) >>= λ b. print_sizes size_of b >> receive_poly_loop size_of rs

unfoldable pub receive_poly_main :
    SizeOf → ℤ → (ℤ → Sockaddr → Option ℕ) → List ℕ → List Received → Option Outcome
unfolding udp_server receive_poly_loop
receive_poly_main size_of s bind_to ar rs =
    outcome (bind (listening ar (udp_server s bind_to 13579 [])) λ t. receive_poly_loop size_of rs)
