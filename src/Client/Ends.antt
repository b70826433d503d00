-- ===== src/Client/Ends.antt =====
-- genz from its arguments to its end.

use onwards.Prelude.{
  ℕ, suc, ◌+◌, ◌^◌, ◌≤◌, ◌<◌, ◌≡◌, refl, List, [], ◌∷◌, ◌++◌, ℤ, pos, negsuc, none, some, int16,
  int32, bits_of, half_range, length, length-append, length-drop, drop, Bool, if◌then◌else◌, arith,
  ap, ◌∙◌, zeros,
}
use onwards.Failure.{M, ok, bind, failure, int, from_chars}
use onwards.SendBuffer.{SendBuffer, init, out_duo}
use onwards.SendBuffer.Space.{View, of_view}
use onwards.ReceiveBuffer.Packet.{frame, length-frame}
use onwards.MarshallingInt.{of_text, of_int, total_size}
use onwards.MarshallingInt.Texts.{joined}
use onwards.Messages.{middle_marshal, front_marshal, marshal_sized, mar_middle}
use onwards.Messages.Room.{added}
use onwards.Messages.Framing.{marshal_sized_ok}
use onwards.Messages.Deliver.{sent_lem}
use onwards.Messages.Front.{front_marshal-sent}
use onwards.Io.{got}
use onwards.Uring.{udp_packet_max}
use onwards.Sockets.{Sockaddr, sockaddr, to_port, with_address, set_rcv_timeout}
use onwards.Client.{
  Stack, Net, datagram, not_received, send_to, get_packet, answered, rounds, genz, genz_main,
  buffer_stack, ended, host, port, Exit, leave, line, wrote,
}
use onwards.Client.Answers.{NoNul, exit_of, answered_lem}
use onwards.Client.Request.{request_body, length-request_body, mar_middle-Emits}

-- The socket buffer after the request was marshalled
abbrev fresh : List ℕ → View
fresh ar = record { done = []; cur = []; rest = ar }

pattern_small : (i : ℤ) → bits_of int32 i < 2 ^ 32
unfolding bits_of
pattern_small (pos n) = omega arith
pattern_small (negsuc n) = omega arith

of_text_small : (acct : List ℕ) → (of_text acct).val < 2 ^ 32
unfolding of_text of_int
of_text_small acct = pattern_small (from_chars acct)

abbrev pub request : (acct path : List ℕ) → List ℕ
request acct path = frame int16 (request_body (of_text acct) path)

abbrev pub to_server : List (List ℕ) → List ℕ → Sockaddr
to_server more address = record (sockaddr (to_port (port more))) { address = address }

-- The state in which the rounds begin
abbrev asking : ℤ → (ar acct path : List ℕ) → Stack
asking k ar acct path = record {
  out = of_view int16 k (added int16 (request_body (of_text acct) path) (fresh ar));
  inp = record {
    width = int16;
    rbuf = request acct path ++ drop (2 + length (request_body (of_text acct) path)) ar;
    msg_length = pos 0;
    sub_total = pos 0;
    packet_length = pos 0;
    rindex = pos 0;
  };
  sent = [];
}

module _ (w : Net) (ar acct path : List ℕ) (more : List (List ℕ)) (address : List ℕ)
    (size : length ar ≡ udp_packet_max) (short : length path < 1488)
    (found : w.pton (host more) ≡ (pos 1, address)) where
  room : 2 + length (request_body (of_text acct) path) ≤ udp_packet_max
  room = omega (arith, length-request_body (of_text acct) path)

  marshalled :
      middle_marshal udp_packet_max (of_text acct) path (buffer_stack ar w.socket).out
      ≡ ok tt (asking w.socket ar acct path).out
  unfolding middle_marshal init buffer_stack
  marshalled =
      ap
        (λ n.
          marshal_sized udp_packet_max (mar_middle (of_text acct) path)
            (record (init int16 ar (pos n)) { sock = w.socket }))
        {x = udp_packet_max} {y = 0 + 0 + length ar} (omega arith)
      ∙ marshal_sized_ok int16 w.socket (fresh ar) (omega arith) refl udp_packet_max
          (mar_middle-Emits (of_text acct) path (of_text_small acct) (omega arith))
          (omega (arith, room)) room

  asks :
      genz w acct path more (buffer_stack ar w.socket)
      ≡ rounds w (to_server more address) 3 8 (asking w.socket ar acct path)
  unfolding genz buffer_stack with_address
  asks =
      ap
        (λ t. bind (with_address t (to_port (port more)) (buffer_stack ar w.socket)) (λ sa s.
          bind (wrote s (middle_marshal udp_packet_max (of_text acct) path s.out))
            (λ _. rounds w sa 3 8)))
        found
      ∙ ap
          (λ r.
            bind (wrote (buffer_stack ar w.socket) r) (λ _. rounds w (to_server more address) 3 8))
          marshalled

  asked_size : length (asking w.socket ar acct path).out.buf ≡ udp_packet_max
  asked_size = omega (
    arith,
    room,
    length-append (request acct path) (drop (2 + length (request_body (of_text acct) path)) ar),
    length-frame int16 (request_body (of_text acct) path),
    length-drop (2 + length (request_body (of_text acct) path)) ar,
  )

-- The arguments that main takes
pub with_arguments :
    (w : Net) (ar name acct path : List ℕ) (more : List (List ℕ))
    → length more ≤ 2
    → genz_main w ar (name ∷ acct ∷ path ∷ more)
      ≡ ended (genz w acct path more (buffer_stack ar w.socket))
unfolding genz_main
with_arguments w ar name acct path [] h = refl
with_arguments w ar name acct path (node ∷ []) h = refl
with_arguments w ar name acct path (node ∷ p ∷ []) h = refl
with_arguments w ar name acct path (node ∷ p ∷ x ∷ more) h = absurd (omega arith)

on_packet : Net → Sockaddr → Bool → M Stack Exit
on_packet w sa here = if here then answered else rounds w sa 2 12

-- A round whose datagram is sent, up to the wait for an answer
first_round :
    (w : Net) (sa : Sockaddr) (s : Stack) (n : ℕ)
    → w.sent 8 ≡ got (suc n)
    → w.timeout 8 ≡ none
    → rounds w sa 3 8 s
      ≡ bind
          (get_packet (w.received 8) (record s { sent = (out_duo s.out, sa) ∷ s.sent }))
          (on_packet w sa)
unfolding rounds send_to set_rcv_timeout on_packet
first_round w sa s n e t = rw (e, t) refl

module _ (w : Net) (ar name acct path : List ℕ) (more : List (List ℕ)) (address : List ℕ)
    (size : length ar ≡ udp_packet_max) (short : length path < 1488) (few : length more ≤ 2)
    (found : w.pton (host more) ≡ (pos 1, address)) (n : ℕ) (sent : w.sent 8 ≡ got (suc n))
    (set : w.timeout 8 ≡ none) where
  abbrev waiting : Stack
  waiting = record (asking w.socket ar acct path) {
    sent = (request acct path, to_server more address) ∷ [];
  }

  outgoing : out_duo (asking w.socket ar acct path).out ≡ request acct path
  outgoing = sent_lem int16 w.socket (request_body (of_text acct) path) ar

  waits :
      genz_main w ar (name ∷ acct ∷ path ∷ more)
      ≡ ended (bind (get_packet (w.received 8) waiting) (on_packet w (to_server more address)))
  waits =
      with_arguments w ar name acct path more few
      ∙ ap ended (
          asks w ar acct path more address size short found
          ∙ first_round w (to_server more address) (asking w.socket ar acct path) n sent set
          ∙ ap
              (λ d.
                bind
                  (get_packet (w.received 8) (record (asking w.socket ar acct path) {
                    sent = (d, to_server more address) ∷ [];
                  }))
                  (on_packet w (to_server more address)))
              outgoing)

  -- If the client has its two arguments and at most a node and a port, a path of fewer than 1488
  -- characters, an address for the node and an array of 1500 bytes, its first datagram is sent
  -- and its timeout is set, and it receives what the middle tier's front::marshal sends for some
  -- texts, together fewer than 2 to the 15 bytes and without a NUL, then it ends, having sent the
  -- request once and to that address: with success when there are no texts, and else with failure
  -- and the texts, end to end, behind cmwA:.
  pub genz_main-answered :
      (ss : List (List ℕ)) (m : SendBuffer)
      → total_size ss < half_range int16
      → NoNul (joined ss)
      → front_marshal udp_packet_max ss 0 (init int16 (zeros udp_packet_max) (pos udp_packet_max))
        ≡ ok tt m
      → w.received 8 ≡ datagram (out_duo m)
      → genz_main w ar (name ∷ acct ∷ path ∷ more)
        ≡ some (exit_of ss, (request acct path, to_server more address) ∷ [])
  unfolding on_packet
  genz_main-answered ss m small no_nul made arrived =
      let front = front_marshal-sent ss m small made in
      let read =
        answered_lem ss waiting (rounds w (to_server more address) 2 12)
          (asked_size w ar acct path more address size short found) refl small (front.1) no_nul in
      waits
      ∙ ap (λ d. ended (bind (get_packet d waiting) (on_packet w (to_server more address))))
          (arrived ∙ ap datagram (front.0))
      ∙ ap ended (read.1)
      ∙ ap (λ l. some (exit_of ss, l)) (read.2)

  -- If the client has its arguments, an address for the node and an array of 1500 bytes as
  -- before, its first datagram is sent and its timeout is set, and the first receive fails, then
  -- the client fails with getPacket and the errno, having sent the request once: there is no
  -- second round.
  pub genz_main-unanswered :
      (errno : ℕ)
      → w.received 8 ≡ not_received errno
      → genz_main w ar (name ∷ acct ∷ path ∷ more)
        ≡ some (
          leave (line "" (failure "getPacket" (int (pos errno) ∷ [])).st),
          (request acct path, to_server more address) ∷ [],
        )
  unfolding get_packet
  genz_main-unanswered errno lost =
      waits
      ∙ ap (λ d. ended (bind (get_packet d waiting) (on_packet w (to_server more address)))) lost
