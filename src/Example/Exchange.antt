-- ===== src/Example/Exchange.antt =====
-- The two programs together: the receiver prints what senders marshal, message after message.
use onwards.Prelude.{
  ℕ, ◌+◌, ◌≡◌, refl, sym, List, [], ◌∷◌, ◌++◌, ℤ, pos, int16, length, arith, ap, ◌∙◌, Option, none,
  some, zeros, length-zeros, append-nil, append_assoc,
}
use onwards.Failure.{Run, ok, raised, fault, bind, failure, int}
use onwards.SendBuffer.{SendBuffer, init, out_duo}
use onwards.SendBuffer.Space.{View, of_view}
use onwards.ReceiveBuffer.Packet.{frame}
use onwards.Messages.Room.{added}
use onwards.Messages.Framing.{marshal_hdr_ok}
use onwards.Messages.Deliver.{sent_lem}
use onwards.Uring.{udp_packet_max}
use onwards.Sockets.{Sockaddr, sockaddr, udp_server}
use onwards.Client.{Received, datagram, not_received, buffer_stack}
use onwards.Example.{
  Content, vector_text, int_set, float_array, MessageId, id1, id2, id3, id_byte, marshal_message,
  max_length, Program, receive_one, receive_loop, receive_main, waits, ends, outcome, failure_line,
}
use onwards.Example.Kinds.{body, mar-Emits}
use onwards.Example.Round.{
  Incoming, message, other, id_of, Valid, packet, report, Ready, receive_one_lem,
}
use onwards.Example.Stops.{receive_one-failed, receive_one-empty}

abbrev pub kind : Content → MessageId
kind (vector_text ns s) = id1
kind (int_set ns) = id2
kind (float_array ns) = id3

-- A new BufferStack
abbrev pub fresh : List ℕ → View
fresh ar = record { done = []; cur = []; rest = ar }

pub marshal_message_lem :
    (ar : List ℕ) (k : ℤ) (t : Content)
    → length ar ≡ udp_packet_max
    → Valid (message t)
    → marshal_message (kind t) t (buffer_stack ar k).out
      ≡ ok tt (of_view int16 k (added int16 (id_of (message t) ∷ body t) (fresh ar)))
unfolding marshal_message init id_byte buffer_stack
marshal_message_lem ar k t size h =
    ap (λ n. marshal_message (kind t) t (record (init int16 ar (pos n)) { sock = k }))
      {x = udp_packet_max} {y = 0 + 0 + length ar} (omega arith)
    ∙ by_kind t h
  where
    by_kind :
        (t : Content)
        → Valid (message t)
        → marshal_message (kind t) t (of_view int16 k (fresh ar))
          ≡ ok tt (of_view int16 k (added int16 (id_of (message t) ∷ body t) (fresh ar)))
    by_kind (vector_text ns s) h =
        marshal_hdr_ok int16 k (fresh ar) (omega arith) refl max_length 0
          (mar-Emits (vector_text ns s) h.0 (omega (arith, h.1))) (omega (arith, h.1))
          (omega (arith, h.1))
    by_kind (int_set ns) h =
        marshal_hdr_ok int16 k (fresh ar) (omega arith) refl max_length 1
          (mar-Emits (int_set ns) h.0 (omega (arith, h.1))) (omega (arith, h.1))
          (omega (arith, h.1))
    by_kind (float_array ns) h =
        marshal_hdr_ok int16 k (fresh ar) (omega arith) refl max_length 2
          (mar-Emits (float_array ns) h.0 (omega (arith, h.1))) (omega (arith, h.1))
          (omega (arith, h.1))

-- The bytes that go out after a call
abbrev pub outgoing : Run SendBuffer (Unit {0}) → List ℕ
outgoing (ok t b) = out_duo b
outgoing (raised e b) = []
outgoing fault = []

-- What comes in for a message is what marshal makes of it in a new BufferStack of 1500 bytes.
abbrev pub sent_as : Incoming → List ℕ
sent_as (message t) =
    outgoing (marshal_message (kind t) t (buffer_stack (zeros udp_packet_max) (pos 3)).out)
sent_as (other n bs) = frame int16 (n ∷ bs)

pub sent_as_lem : (i : Incoming) → Valid i → sent_as i ≡ packet i
sent_as_lem (message t) h =
    ap outgoing
      (marshal_message_lem (zeros udp_packet_max) (pos 3) t (length-zeros udp_packet_max) h)
    ∙ sent_lem int16 (pos 3) (id_of (message t) ∷ body t) (zeros udp_packet_max)
sent_as_lem (other n bs) h = refl

abbrev pub AllValid : List Incoming → Type 0
AllValid [] = Unit
AllValid (i ∷ is) = Valid i × AllValid is

abbrev pub datagrams : List Incoming → List Received → List Received
datagrams [] rs = rs
datagrams (i ∷ is) rs = datagram (sent_as i) ∷ datagrams is rs

-- What is printed for all of them
abbrev pub reports : (ℕ → List ℕ) → List Incoming → List ℕ
reports f [] = []
reports f (i ∷ is) = report f i ++ reports f is

-- The receiver after them, before it looks at the others
record After (f : ℕ → List ℕ) (is : List Incoming) (rs : List Received) (p : Program) : Type 0 where
  left : Program
  run : receive_loop f (datagrams is rs) p ≡ receive_loop f rs left
  printed : left.shown ≡ p.shown ++ reports f is
  ready : Ready left

loop-After :
    (f : ℕ → List ℕ) (is : List Incoming) (rs : List Received) (p : Program)
    → AllValid is
    → Ready p
    → After f is rs p
unfolding receive_loop
loop-After f [] rs p h ready = record {
  left = p;
  run = refl;
  printed = sym (append-nil p.shown);
  ready = ready;
}
loop-After f (i ∷ is) rs p h ready =
    let one = receive_one_lem f i p ready h.0 in
    let more = loop-After f is rs one.0 h.1 one.3 in
    record {
      left = more.left;
      run =
          ap (λ d. bind (receive_one f (datagram d) p) (λ t. receive_loop f (datagrams is rs)))
            (sent_as_lem i h.0)
          ∙ ap (λ r. bind r (λ t. receive_loop f (datagrams is rs))) one.1
          ∙ more.run;
      printed =
          more.printed
          ∙ ap (λ t. t ++ reports f is) one.2
          ∙ append_assoc p.shown (report f i) (reports f is);
      ready = more.ready;
    }

-- The texts of the exceptions that end the receiver
abbrev pub no_answer : ℕ → List ℕ
no_answer errno = (failure "getPacket" (int (pos errno) ∷ [])).st

abbrev pub no_message : ℕ → List ℕ
no_message place =
    (failure "ReceiveBuffer checkLen" (int (pos 1) ∷ int (pos 0) ∷ int (pos place) ∷ [])).st

module _ (f : ℕ → List ℕ) (s : ℤ) (bind_to : ℤ → Sockaddr → Option ℕ) (ar : List ℕ)
    (size : length ar ≡ udp_packet_max) (bound : bind_to s (sockaddr 12345) ≡ none)
    (is : List Incoming) (h : AllValid is) where
  abbrev start : Program
  start = record { stack = buffer_stack ar s; shown = [] }

  start-Ready : Ready start
  unfolding buffer_stack
  start-Ready = record { size = size; width = refl; place = 0; position = refl }

  abbrev runs : (rs : List Received) → After f is rs start
  runs rs = loop-After f is rs start h start-Ready

  begins : (rs : List Received) → receive_main f s bind_to ar rs ≡ outcome (receive_loop f rs start)
  unfolding receive_main udp_server
  begins rs = rw (bound, outcome) refl

  -- If its socket can be bound and its array has 1500 bytes, the receiver of the example, given
  -- any sequence of datagrams that are each what exampleMessages::marshal makes in a new buffer
  -- of a vector of 32-bit numbers with a text, of an ascending set of such numbers or of six
  -- floats, or a message with an id above 2 and any content, each of at most 1500 bytes, prints
  -- for each in turn its id and its numbers and text, or that the id is unexpected, and then
  -- waits.
  pub receive_main-messages :
      receive_main f s bind_to ar (datagrams is []) ≡ some (waits (reports f is))
  unfolding receive_loop
  receive_main-messages =
      begins (datagrams is [])
      ∙ ap outcome (runs []).run
      ∙ ap (λ t. some (waits t)) (runs []).printed

  -- If its socket can be bound and its array has 1500 bytes, the receiver of the example, after
  -- any sequence of datagrams with valid messages or unexpected ids, each of at most 1500 bytes,
  -- ends, whatever would come later, having printed them all and a line with the failure: with
  -- getPacket and the errno if the next receive fails, and with checkLen if the next datagram has
  -- no byte.
  pub receive_main-stopped :
      (rs : List Received)
      → ((errno : ℕ)
          → receive_main f s bind_to ar (datagrams is (not_received errno ∷ rs))
            ≡ some (ends (reports f is ++ failure_line (no_answer errno))))
        × ((place : ℕ) × (receive_main f s bind_to ar (datagrams is (datagram [] ∷ rs))
              ≡ some (ends (reports f is ++ failure_line (no_message place)))))
  unfolding receive_loop
  receive_main-stopped rs = (
    λ errno.
        let after = runs (not_received errno ∷ rs) in
        begins (datagrams is (not_received errno ∷ rs))
        ∙ ap outcome after.run
        ∙ ap (λ r. outcome (bind r (λ t. receive_loop f rs)))
            (receive_one-failed f after.left errno)
        ∙ ap (λ t. some (ends (t ++ failure_line (no_answer errno)))) after.printed,
    let after = runs (datagram [] ∷ rs) in
        let stop = receive_one-empty f after.left after.ready in
        (
          after.ready.place,
          begins (datagrams is (datagram [] ∷ rs))
              ∙ ap outcome after.run
              ∙ ap (λ r. outcome (bind r (λ t. receive_loop f rs))) stop.1
              ∙ ap (λ t. some (ends (t ++ failure_line (no_message after.ready.place))))
                  (stop.2 ∙ after.printed),
        ),
  )
