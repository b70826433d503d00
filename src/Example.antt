-- ===== src/Example.antt =====
-- example/sendExample.cc, receiveExample.cc, example.mdl.hh and messageIDs.hh: two programs that
-- exchange three kinds of messages. The number entered, the answers of the system and the text of a
-- float, given by its bit pattern, are parameters. The receiver never stops by itself: it is run on the
-- datagrams that come in, and waits behind the last of them.
pub mod Sending
pub mod Sets
pub mod Ordered
pub mod Kinds
pub mod Round
pub mod Stops
pub mod Exchange
pub mod Sends
use onwards.Prelude.{
  ℕ, zero, suc, List, [], ◌∷◌, ◌++◌, ℤ, pos, negsuc, Bool, int32, signed, ltb_ℤ, of_le, pos_part,
  ◌==◌, if◌then◌else◌, Option, none, some,
}
use onwards.Failure.{M, Run, ok, raised, fault, ◌>>◌, bind, ◌>>=◌, return, codes, to_chars}
use onwards.SendBuffer.{SendBuffer}
use onwards.ReceiveBuffer.{ReceiveBuffer, give_value}
use onwards.Messages.{marshal_hdr, mar_example, mar_set, mar_array, give_example, give_array, words}
use onwards.Sockets.{Sockaddr, udp_server}
use onwards.Client.{Stack, Received, get_packet, gave, buffer_stack}

pub data MessageId : Type 0 where
  id1 id2 id3 : MessageId

unfoldable pub id_byte : MessageId → ℕ
id_byte id1 = 0
id_byte id2 = 1
id_byte id3 = 2

-- The arguments of exampleMessages::marshal: a vector and a string, a set in the order in which it is
-- gone through, or an array of six floats. Numbers are given by their bit patterns.
pub data Content : Type 0 where
  vector_text : List ℕ → List ℕ → Content
  int_set : List ℕ → Content
  float_array : List ℕ → Content

unfoldable pub mar : Content → M SendBuffer (Unit {0})
mar (vector_text a b) = mar_example a b
mar (int_set a) = mar_set a
mar (float_array a) = mar_array (words a)

abbrev pub max_length : ℕ
max_length = 10000

unfoldable pub marshal_message : MessageId → Content → M SendBuffer (Unit {0})
unfolding mar
marshal_message id t = marshal_hdr (id_byte id) max_length (mar t)

-- The numbers that stand in a block of memory
abbrev pub words_of : List ℕ → List ℕ
words_of (a ∷ b ∷ c ∷ d ∷ more) = of_le (a ∷ b ∷ c ∷ d ∷ []) ∷ words_of more
words_of _ = []

-- A number put in a set, which is ordered by <
unfoldable pub emplace_hint : ℕ → List ℕ → List ℕ
emplace_hint v [] = v ∷ []
emplace_hint v (a ∷ more) =
    let behind = a ∷ emplace_hint v more in
    if ltb_ℤ (signed int32 a) (signed int32 v)
    then behind
    else if ltb_ℤ (signed int32 v) (signed int32 a)
    then (v ∷ a ∷ more)
    else (a ∷ more)

-- `for(...;ca>0;--ca)`
unfoldable pub give_each : ℕ → List ℕ → M ReceiveBuffer (List ℕ)
give_each zero a = return a
give_each (suc ca) a = give_value 4 >>= λ v. give_each ca (emplace_hint v a)

-- exampleMessages::give of a set, into an empty one
unfoldable pub give_set : M ReceiveBuffer (List ℕ)
unfolding give_each
give_set = give_value 4 >>= λ n. give_each (pos_part (signed int32 n)) []

-- A program: its buffers, and what it printed
pub record Program : Type 0 where
  pub stack : Stack
  pub shown : List ℕ

abbrev pub on_stack {ℓ} : {A : Type ℓ} → Program → Run Stack A → Run Program A
on_stack p (ok a s) = ok a (record p { stack = s })
on_stack p (raised e s) = raised e (record p { stack = s })
on_stack p fault = fault

abbrev pub print : List ℕ → M Program (Unit {0})
print text p = ok tt (record p { shown = p.shown ++ text })

abbrev pub reading {ℓ} : {A : Type ℓ} → M ReceiveBuffer A → M Program A
reading m p = on_stack p (gave p.stack (m p.stack.inp))

-- `for(auto v:vec){::std::cout<<v<<' ';}`
abbrev pub spaced : (ℕ → List ℕ) → List ℕ → List ℕ
spaced show [] = []
spaced show (v ∷ vs) = show v ++ (b' ' ∷ spaced show vs)

abbrev pub show_int : ℕ → List ℕ
show_int v = to_chars (signed int32 v)

abbrev pub end_line : List ℕ
end_line = b'\n' ∷ []

-- The switch of the receiver
unfoldable pub dispatch : (ℕ → List ℕ) → ℕ → M Program (Unit {0})
unfolding give_set
dispatch show_float msgid =
    if msgid == id_byte id1
    then (reading give_example >>= λ a. print (spaced show_int (words_of a.0) ++ (end_line ++ a.1)))
    else if msgid == id_byte id2
    then (reading give_set >>= λ iset. print (spaced show_int iset))
    else if msgid == id_byte id3
    then (reading give_array >>= λ a. print (spaced show_float (words_of a) ++ end_line))
    else print (codes "Unexpected message id: ")

-- The body of its loop; what getPacket returns is not looked at.
unfoldable pub receive_one : (ℕ → List ℕ) → Received → M Program (Unit {0})
unfolding dispatch
receive_one show_float r = (λ p. on_stack p (get_packet r p.stack)) >>= λ here.
    reading (give_value 1) >>= λ msgid.
    print (codes "Message id: " ++ (to_chars (pos msgid) ++ end_line))
    >> dispatch show_float msgid
    >> print end_line

unfoldable pub receive_loop : (ℕ → List ℕ) → List Received → M Program (Unit {0})
unfolding receive_one
receive_loop show_float [] = return tt
receive_loop show_float (r ∷ rs) = receive_one show_float r >> receive_loop show_float rs

-- What the receiver printed, and whether it still waits
pub data Outcome : Type 0 where
  waits : List ℕ → Outcome
  ends : List ℕ → Outcome

abbrev pub failure_line : List ℕ → List ℕ
failure_line st = codes "failure: " ++ (st ++ end_line)

abbrev pub outcome : Run Program (Unit {0}) → Option Outcome
outcome (ok t p) = some (waits p.shown)
outcome (raised e p) = some (ends (p.shown ++ failure_line e.st))
outcome fault = none

-- main, on the block `ar`: the socket is that of udpServer, or its exception.
abbrev pub listening : (ar : List ℕ) → Run (List ℤ) ℤ → Run Program (Unit {0})
listening ar (ok s closed) = ok tt (record { stack = buffer_stack ar s; shown = [] })
listening ar (raised e closed) =
    raised e (record { stack = buffer_stack ar (negsuc 0); shown = [] })
listening ar fault = fault

unfoldable pub receive_main :
    (ℕ → List ℕ) → ℤ → (ℤ → Sockaddr → Option ℕ) → List ℕ → List Received → Option Outcome
unfolding udp_server receive_loop
receive_main show_float s bind_to ar rs =
    outcome (bind (listening ar (udp_server s bind_to 12345 [])) λ t. receive_loop show_float rs)
