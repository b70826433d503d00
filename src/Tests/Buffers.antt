-- ===== src/Tests/Buffers.antt =====
-- Buffers and messages at concrete inputs.
use onwards.Prelude.{ℕ, ◌≡◌, refl, List, [], ◌∷◌, ◌++◌, pos, int16, le_bytes, length, arith, inr}
use onwards.Failure.{M, ok, ◌>>=◌}
use onwards.SendBuffer
use onwards.SendBuffer.{SendBuffer, receive, receive_value, out_duo}
use onwards.SendBuffer.Space
use onwards.SendBuffer.Space.{receive_ok, receive_full}
use onwards.SendBuffer.Emit.{Emits, receive_value-Emits}
use onwards.ReceiveBuffer.{ReceiveBuffer, give_value, update}
use onwards.ReceiveBuffer.Window.{give_value-Reads}
use onwards.ReceiveBuffer.Packet.{frames, Walks, update-Walks}
use onwards.Messages.{marshal_sized, marshal_hdr}
use onwards.Messages.Room.{Unchanged}
use onwards.Messages.Framing.{marshal_sized_ok, marshal_hdr_ok, marshal_hdr_refused}
use onwards.Messages.Deliver.{delivered}

-- A buffer that holds the message `3 0 9` and has room for eight bytes.
abbrev one_message : SendBuffer.Space.View
one_message = record { done = 3 ∷ 0 ∷ 9 ∷ []; cur = []; rest = 0 ∷ 0 ∷ 0 ∷ 0 ∷ 0 ∷ 0 ∷ 0 ∷ 0 ∷ [] }

abbrev two_bytes : M SendBuffer (Unit {0})
two_bytes = receive_value (5 ∷ 6 ∷ [])

two_bytes-Emits : Emits int16 two_bytes (5 ∷ 6 ∷ [])
two_bytes-Emits = receive_value-Emits int16 (5 ∷ 6 ∷ []) (omega arith)

marshal_sized_ok_example :
    marshal_sized 10 two_bytes (SendBuffer.Space.of_view int16 (pos 7) one_message)
    ≡ ok tt (
        SendBuffer.Space.of_view int16
          (pos 7)
          (record { done = 3 ∷ 0 ∷ 9 ∷ 4 ∷ 0 ∷ 5 ∷ 6 ∷ []; cur = []; rest = 0 ∷ 0 ∷ 0 ∷ 0 ∷ [] }))
unfolding le_bytes
marshal_sized_ok_example =
    marshal_sized_ok int16 (pos 7) one_message (omega arith) refl 10 two_bytes-Emits (omega arith)
      (omega arith)

marshal_hdr_ok_example :
    marshal_hdr 2 10 two_bytes (SendBuffer.Space.of_view int16 (pos 7) one_message)
    ≡ ok tt (
        SendBuffer.Space.of_view int16
          (pos 7)
          (record { done = 3 ∷ 0 ∷ 9 ∷ 5 ∷ 0 ∷ 2 ∷ 5 ∷ 6 ∷ []; cur = []; rest = 0 ∷ 0 ∷ 0 ∷ [] }))
unfolding le_bytes
marshal_hdr_ok_example =
    marshal_hdr_ok int16 (pos 7) one_message (omega arith) refl 10 2 two_bytes-Emits (omega arith)
      (omega arith)

marshal_hdr_refused_example :
    Unchanged int16
      (pos 7)
      one_message
      (marshal_hdr 2 4 two_bytes (SendBuffer.Space.of_view int16 (pos 7) one_message))
marshal_hdr_refused_example =
    marshal_hdr_refused int16 (pos 7) one_message (omega arith) refl 4 2 two_bytes-Emits
      (inr (omega arith))

-- A packet of two messages, one of them empty.
abbrev two_messages : List (List ℕ)
two_messages = (9 ∷ 8 ∷ []) ∷ [] ∷ []

abbrev arrived : ReceiveBuffer
arrived = record {
  width = int16;
  rbuf = frames int16 two_messages ++ (1 ∷ []);
  msg_length = pos 0;
  sub_total = pos 0;
  packet_length = pos 0;
  rindex = pos 0;
}

update-Walks_example : Walks int16 (pos 6) (update 6 arrived) two_messages
unfolding le_bytes
update-Walks_example =
    update-Walks arrived two_messages (1 ∷ []) (omega arith, (omega arith, tt)) (omega arith) refl

-- A message of an int16.
delivered_example :
    (s : SendBuffer) × (marshal_sized 10 two_bytes (
        SendBuffer.Space.of_view int16
          (pos 7)
          (record { done = []; cur = []; rest = 0 ∷ 0 ∷ 0 ∷ 0 ∷ 0 ∷ [] }))
      ≡ ok tt s)
    × ((b : ReceiveBuffer) (slack : List ℕ)
        → (b' : ReceiveBuffer) × ((update (length (out_duo s)) >>= λ more. give_value 2)
              (record b { width = int16; rbuf = out_duo s ++ slack })
            ≡ ok 0x0605 b'))
unfolding le_bytes
delivered_example =
    delivered int16
      (record {
        bytes = 5 ∷ 6 ∷ [];
        emits = two_bytes-Emits;
        reads = give_value-Reads 2 0x0605 (omega arith);
      })
      (pos 7) (0 ∷ 0 ∷ 0 ∷ 0 ∷ 0 ∷ []) 10 (omega arith) (omega arith) (omega arith)
