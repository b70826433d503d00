-- ===== src/Poly/Sizes.antt =====
-- What the receiver of example/poly/receivePoly.cc prints of collections that have both classes
use mathlib.Core.Path.{subst}
use onwards.Prelude.{
  ℕ, ◌≡◌, refl, sym, List, [], ◌∷◌, ◌++◌, ℤ, pos, length, ap, ◌∙◌, Option, none, some, append-nil,
  append_assoc,
}
use onwards.Failure.{M, ok, bind, codes, to_chars, ◌>>◌}
use onwards.SendBuffer.{out_duo}
use onwards.Uring.{udp_packet_max}
use onwards.Sockets.{Sockaddr, sockaddr, udp_server}
use onwards.Client.{Received, datagram, buffer_stack}
use onwards.Example.{Program, end_line, waits, outcome}
use onwards.Example.Round.{Ready}
use onwards.Poly.{Object, Collection}
use onwards.Poly.Arrives.{arrived}
use onwards.Poly.Programs.{
  SizeOf, print_sizes, count_of, size_of_all, receive_poly_loop, receive_poly_main,
}
use onwards.Poly.Runs.{Sent, received, read, read-Ready}

abbrev number_line : ℕ → List ℕ
number_line n = to_chars (pos n) ++ end_line

-- What is printed of a collection up to the number of its derived1, and of a whole one
abbrev pub start_of : Collection → List ℕ
start_of b = codes "size is " ++ (number_line (size_of_all b) ++ codes "number of derived1 is ")

abbrev pub sizes_of : Collection → List ℕ
sizes_of b =
    start_of b
    ++ (number_line (count_of b.derived1s)
        ++ (codes "number of derived3 is " ++ number_line (count_of b.derived3s)))

-- Both classes have objects.
abbrev pub Both : Collection → Type 0
Both b =
    ((xs : List Object) × (b.derived1s ≡ some xs)) × ((ys : List Object) × (b.derived3s ≡ some ys))

-- Collections that are sent one after the other, each with both classes
pub data Messages : Type 0 where
  last : Messages
  next : (a : Collection) → Sent a → Both (arrived a) → Messages → Messages

abbrev pub datagrams : Messages → List Received → List Received
datagrams last rs = rs
datagrams (next a s h more) rs = datagram (out_duo s.made) ∷ datagrams more rs

abbrev pub reports : Messages → List ℕ
reports last = []
reports (next a s h more) = sizes_of (arrived a) ++ reports more

-- size<T>() of a collection in which T is registered is the number of its objects of T.
abbrev pub Documented : SizeOf → Type 0
Documented size_of = (xs : List Object) (p : Program) → size_of (some xs) p ≡ ok (length xs) p

module _ (size_of : SizeOf) (documented : Documented size_of) where
  print_sizes-Both :
      (b : Collection) (p : Program)
      → Both b
      → print_sizes size_of b p ≡ ok tt (record p { shown = p.shown ++ sizes_of b })
  unfolding print_sizes
  print_sizes-Both b p ((xs, one), (ys, three)) =
      subst (λ c. print_sizes size_of c p ≡ ok tt (record p { shown = p.shown ++ sizes_of c })) same
        (rw (documented xs, documented ys)
          (ap (λ t. ok tt (record p { shown = t })) (simp append_assoc)))
    where
      same : record b { derived1s = some xs; derived3s = some ys } ≡ b
      same = λ i. record b { derived1s = sym one i; derived3s = sym three i }

  record After (ms : Messages) (rs : List Received) (p : Program) : Type 0 where
    left : Program
    run : receive_poly_loop size_of (datagrams ms rs) p ≡ receive_poly_loop size_of rs left
    printed : left.shown ≡ p.shown ++ reports ms
    ready : Ready left

  -- What follows a collection that is read
  following : List Received → Collection → M Program (Unit {0})
  following rs b = print_sizes size_of b >> receive_poly_loop size_of rs

  one_read :
      (a : Collection) (s : Sent a) (rs : List Received) (p : Program) (ready : Ready p)
      → receive_poly_loop size_of (datagram (out_duo s.made) ∷ rs) p
        ≡ following rs (arrived a) (read a s p ready)
  unfolding receive_poly_loop following
  one_read a s rs p ready = received a s p ready (following rs)

  loop-After : (ms : Messages) (rs : List Received) (p : Program) → Ready p → After ms rs p
  unfolding following receive_poly_loop
  loop-After last rs p ready = record {
    left = p;
    run = refl;
    printed = sym (append-nil p.shown);
    ready = ready;
  }
  loop-After (next a s both more) rs p ready =
      let now = record (read a s p ready) { shown = p.shown ++ sizes_of (arrived a) } in
      let kept = read-Ready a s p ready in
      let rest = loop-After more rs now (record {
        size = kept.size;
        width = kept.width;
        place = kept.place;
        position = kept.position;
      }) in
      record {
        left = rest.left;
        run =
            one_read a s (datagrams more rs) p ready
            ∙ ap (λ r. bind r (λ _. receive_poly_loop size_of (datagrams more rs)))
                (print_sizes-Both (arrived a) (read a s p ready) both)
            ∙ rest.run;
        printed = rest.printed ∙ append_assoc p.shown (sizes_of (arrived a)) (reports more);
        ready = rest.ready;
      }

  module _ (s : ℤ) (bind_to : ℤ → Sockaddr → Option ℕ) (ar : List ℕ)
      (size : length ar ≡ udp_packet_max) (bound : bind_to s (sockaddr 13579) ≡ none)
      (ms : Messages) where
    abbrev start : Program
    start = record { stack = buffer_stack ar s; shown = [] }

    start-Ready : Ready start
    unfolding buffer_stack
    start-Ready = record { size = size; width = refl; place = 0; position = refl }

    begins :
        (rs : List Received)
        → receive_poly_main size_of s bind_to ar rs ≡ outcome (receive_poly_loop size_of rs start)
    unfolding receive_poly_main udp_server
    begins rs = rw (bound, outcome) refl

    -- If size<T>() gives the number of the objects where T is registered, its socket can be bound
    -- and its array has 1500 bytes, the receiver of polymorphic objects, given any sequence of
    -- the datagrams that testing::marshal makes in a new buffer of valid collections that have
    -- objects of derived1 and of derived3, prints for each in turn the number of its objects, of
    -- its derived1 and of its derived3, and then waits.
    pub receive_poly_main-sizes :
        receive_poly_main size_of s bind_to ar (datagrams ms []) ≡ some (waits (reports ms))
    unfolding receive_poly_loop
    receive_poly_main-sizes =
        let after = loop-After ms [] start start-Ready in
        begins (datagrams ms []) ∙ ap outcome after.run ∙ ap (λ t. some (waits t)) after.printed
