-- ===== src/Tests/Network.antt =====
-- Servers and the client at concrete inputs.
use onwards.Prelude.{
  ℕ, ◌≡◌, refl, List, [], ◌∷◌, pos, negsuc, int16, none, some, zeros, length-zeros, arith,
}
use onwards.Failure.{raised, failure, int}
use onwards.Io.{got}
use onwards.SendBuffer.{out_duo}
use onwards.SendBuffer.Space.{of_view}
use onwards.Messages.{mar_middle}
use onwards.Messages.Room.{added}
use onwards.Messages.Front.{front_body, front_marshal_ok, unused}
use onwards.MarshallingInt.Encode.{encoding}
use onwards.Wire.{Carries}
use onwards.FixedString.Content.{terminated}
use onwards.Ambassador.Request.{members}
use onwards.Sockets.{Addrinfo, TcpAnswers, addresses, tcp_server}
use onwards.Sockets.Servers.{tcp_server_lem}
use onwards.Client.{Net, leave, line, genz_main, datagram, not_received, Received}
use onwards.Client.Request.{mar_middle-Carries}
use onwards.Client.Ends.{genz_main-answered, genz_main-unanswered, request, to_server}

-- Two addresses: a socket is made for the second, and another server has it.
abbrev first_address : Addrinfo
first_address = record { family = 10; socktype = 1; address = [] }

abbrev second_address : Addrinfo
second_address = record { family = 2; socktype = 1; address = 127 ∷ 0 ∷ 0 ∷ 1 ∷ [] }

abbrev answers : TcpAnswers
answers = record {
  socket = λ a. elim (a.address) [ [] ↦ negsuc 0 | x ∷ xs ↦ pos 3 ];
  reuse_addr = λ s. none;
  bind_to = λ s a. some 98;
  listen = λ s. none;
}

tcp_server_lem_example :
    tcp_server answers (addresses (first_address ∷ second_address ∷ [])) []
    ≡ raised (failure "tcpServer" (int (pos 98) ∷ [])) (pos 3 ∷ [])
tcp_server_lem_example =
    tcp_server_lem answers (first_address ∷ []) second_address [] 3 [] (refl, tt) refl

mar_middle-Carries_example :
    Carries int16
      (mar_middle (record { val = 300 }) (102 ∷ 111 ∷ []))
      members
      (record { val = 300 }, terminated (102 ∷ 111 ∷ []) (zeros 117))
mar_middle-Carries_example =
    mar_middle-Carries (record { val = 300 }) (102 ∷ 111 ∷ []) (omega arith) (omega arith)

-- genz 7 fo, with an address that is found at once
abbrev net : Received → Net
net received = record {
  socket = pos 4;
  pton = λ node. (pos 1, 127 ∷ 0 ∷ 0 ∷ 1 ∷ []);
  sent = λ tm. got 7;
  timeout = λ tm. none;
  received = λ tm. received;
}

abbrev refusal : List (List ℕ)
refusal = (67 ∷ 58 ∷ []) ∷ (110 ∷ 111 ∷ []) ∷ []

abbrev refusal_sent : List ℕ
refusal_sent = out_duo (of_view int16 (negsuc 0) (added int16 (front_body refusal) unused))

genz_main-answered_example :
    genz_main (net (datagram refusal_sent)) (zeros 1500) ([] ∷ (55 ∷ []) ∷ (102 ∷ 111 ∷ []) ∷ [])
    ≡ some (
      leave (line "cmwA:" (67 ∷ 58 ∷ 110 ∷ 111 ∷ [])),
      (request (55 ∷ []) (102 ∷ 111 ∷ []), to_server [] (127 ∷ 0 ∷ 0 ∷ 1 ∷ [])) ∷ [],
    )
unfolding encoding
genz_main-answered_example =
    genz_main-answered (net (datagram refusal_sent)) (zeros 1500) [] (55 ∷ []) (102 ∷ 111 ∷ []) []
      (127 ∷ 0 ∷ 0 ∷ 1 ∷ []) (length-zeros 1500) (omega arith) (omega arith) refl 6 refl refl
      refusal (of_view int16 (negsuc 0) (added int16 (front_body refusal) unused)) (omega arith)
      (
        (λ e. omega (arith, e)),
        ((λ e. omega (arith, e)), ((λ e. omega (arith, e)), ((λ e. omega (arith, e)), tt))),
      )
      (front_marshal_ok refusal (omega arith) (omega arith)) refl

genz_main-unanswered_example :
    genz_main (net (not_received 11)) (zeros 1500) ([] ∷ (55 ∷ []) ∷ (102 ∷ 111 ∷ []) ∷ [])
    ≡ some (
      leave (line "" (failure "getPacket" (int (pos 11) ∷ [])).st),
      (request (55 ∷ []) (102 ∷ 111 ∷ []), to_server [] (127 ∷ 0 ∷ 0 ∷ 1 ∷ [])) ∷ [],
    )
genz_main-unanswered_example =
    genz_main-unanswered (net (not_received 11)) (zeros 1500) [] (55 ∷ []) (102 ∷ 111 ∷ []) []
      (127 ∷ 0 ∷ 0 ∷ 1 ∷ []) (length-zeros 1500) (omega arith) (omega arith) refl 6 refl refl 11
      refl
