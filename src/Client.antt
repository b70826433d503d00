-- ===== src/Client.antt =====
-- src/tiers/front/genz.cc: the client of the middle tier, with getPacket and send of BufferStack. The
-- array of a BufferStack is shared by its two buffers: what is marshalled and what is received stand in
-- the same block. `ar` is what the array holds at the start. The system's answers are those of a record
-- Net; calls that are repeated are told apart by the timeout of their round.
pub mod Answers
pub mod Request
pub mod Ends
pub mod Jni
use onwards.Prelude.{
  ℕ, zero, suc, ◌+◌, ◌-◌, List, [], ◌∷◌, ◌++◌, ℤ, pos, int16, Bool, true, false, Option, none, some,
  ltb, if◌then◌else◌, length, take, drop, store, ◌+ℤ◌, pos_part, String, ◌==◌,
}
use onwards.Failure.{
  M, Run, ok, raised, fault, bind, ◌>>◌, ◌>>=◌, return, raise, int, access, codes, from_chars,
}
use onwards.SendBuffer.{SendBuffer, init, out_duo}
use onwards.ReceiveBuffer.{ReceiveBuffer, update, give_bool}
use onwards.MarshallingInt.{of_text, give_string_view}
use onwards.Messages.{middle_marshal}
use onwards.Uring.{udp_packet_max}
use onwards.Io.{Reply, got, failed}
use onwards.Sockets.{Sockaddr, with_address, to_port, set_rcv_timeout}

-- BufferStack<SameFormat>, and the datagrams that were sent, the latest first
pub record Stack : Type 0 where
  pub out : SendBuffer
  pub inp : ReceiveBuffer
  pub sent : List (List ℕ × Sockaddr)

pub data Received : Type 0 where
  datagram : List ℕ → Received
  not_received : ℕ → Received

pub record Net : Type 0 where
  pub socket : ℤ
  pub pton : List ℕ → ℤ × List ℕ
  pub sent : ℕ → Reply
  pub timeout : ℕ → Option ℕ
  pub received : ℕ → Received

-- A call on one of the buffers; what it writes is in the block of both.
abbrev pub wrote {ℓ} : {A : Type ℓ} → Stack → Run SendBuffer A → Run Stack A
wrote s (ok a b) = ok a (record s { out = b; inp = record (s.inp) { rbuf = b.buf } })
wrote s (raised e b) = raised e (record s { out = b; inp = record (s.inp) { rbuf = b.buf } })
wrote s fault = fault

abbrev pub gave {ℓ} : {A : Type ℓ} → Stack → Run ReceiveBuffer A → Run Stack A
gave s (ok a b) = ok a (record s { inp = b })
gave s (raised e b) = raised e (record s { inp = b })
gave s fault = fault

unfoldable pub send_to : Reply → Sockaddr → M Stack ℕ
send_to (got zero) sa s = raise "buf::send" (int (pos 0) ∷ []) s
send_to (got (suc r)) sa s = ok (suc r) (record s { sent = (out_duo s.out, sa) ∷ s.sent })
send_to (failed errno) sa s = raise "buf::send" (int (pos errno) ∷ []) s

-- recvfrom puts as much of the datagram in the array as it has room for.
unfoldable pub get_packet : Received → M Stack Bool
get_packet (datagram bs) s =
    bind (access (store s.out.buf (pos 0) (take udp_packet_max bs)) s) λ block s.
      gave (record s { out = record (s.out) { buf = block } })
        (update (length (take udp_packet_max bs)) (record (s.inp) { rbuf = block }))
get_packet (not_received errno) s = raise "getPacket" (int (pos errno) ∷ []) s

-- A C string that begins at the place: it has to end in the block.
abbrev pub c_text : List ℕ → Option (List ℕ)
c_text [] = none
c_text (c ∷ cs) =
    let rest = c_text cs in
    if c == 0 then some [] else elim rest [ none ↦ none | some t ↦ some (c ∷ t) ]

-- `giveStringView().data()`, printed
unfoldable pub string_data : M ReceiveBuffer (List ℕ)
string_data = give_string_view >>= λ t b.
    access (c_text (drop (pos_part (b.sub_total +ℤ b.rindex) - length t) b.rbuf)) b

-- The process ends, with EXIT_SUCCESS, or with EXIT_FAILURE and a text on stderr.
pub data Exit : Type 0 where
  success : Exit
  leave : List ℕ → Exit

abbrev pub line : String → List ℕ → List ℕ
line s t = codes s ++ (t ++ (b'\n' ∷ []))

unfoldable pub answered : M Stack Exit
unfolding string_data
answered s = gave s (
    (give_bool >>= λ good.
    if good then return success else (string_data >>= λ t. return (leave (line "cmwA:" t))))
      s.inp)

-- The loop of main, with fuel for the two rounds and the last test
unfoldable pub rounds : Net → Sockaddr → ℕ → ℕ → M Stack Exit
rounds w sa zero tm = λ s. fault
rounds w sa (suc fuel) tm =
    let more = rounds w sa fuel (tm + 4) in
    if ltb tm 13
    then (send_to (w.sent tm) sa >>= λ n.
        set_rcv_timeout (w.timeout tm) >> get_packet (w.received tm) >>= λ here.
        if here then answered else more)
    else return (leave (line "No reply received.  Is the cmwA running?" []))

abbrev pub host : List (List ℕ) → List ℕ
host [] = codes "127.0.0.1"
host (node ∷ more) = node

abbrev pub port : List (List ℕ) → ℤ
port (node ∷ p ∷ more) = from_chars p
port _ = pos 55555

-- main behind the test of the arguments: `more` are those from av[3] on.
unfoldable pub genz : Net → (acct path : List ℕ) → List (List ℕ) → M Stack Exit
unfolding rounds
genz w acct path more = with_address (w.pton (host more)) (to_port (port more)) >>= λ sa s.
    bind (wrote s (middle_marshal udp_packet_max (of_text acct) path s.out)) λ _. rounds w sa 3 8

unfoldable pub buffer_stack : List ℕ → ℤ → Stack
unfolding init
buffer_stack ar s = record {
  out = record (init int16 ar (pos udp_packet_max)) { sock = s };
  inp = record {
    width = int16;
    rbuf = ar;
    msg_length = pos 0;
    sub_total = pos 0;
    packet_length = pos 0;
    rindex = pos 0;
  };
  sent = [];
}

-- The handler of main; a fault has no exit.
abbrev pub ended : Run Stack Exit → Option (Exit × List (List ℕ × Sockaddr))
ended (ok e s) = some (e, s.sent)
ended (raised f s) = some (leave (line "" (f.st)), s.sent)
ended fault = none

abbrev pub usage : Exit
usage = leave (line "Usage: genz account-num mdl-file-path [node] [port]" [])

unfoldable pub genz_main : Net → List ℕ → List (List ℕ) → Option (Exit × List (List ℕ × Sockaddr))
unfolding genz buffer_stack
genz_main w ar (name ∷ acct ∷ path ∷ []) = ended (genz w acct path [] (buffer_stack ar w.socket))
genz_main w ar (name ∷ acct ∷ path ∷ node ∷ []) =
    ended (genz w acct path (node ∷ []) (buffer_stack ar w.socket))
genz_main w ar (name ∷ acct ∷ path ∷ node ∷ p ∷ []) =
    ended (genz w acct path (node ∷ p ∷ []) (buffer_stack ar w.socket))
genz_main w ar _ = some (usage, [])
