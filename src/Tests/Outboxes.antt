-- ===== src/Tests/Outboxes.antt =====
-- A SendBuffer and an outbox, side by side.
use onwards.Prelude.{
  ℕ, le_bytes, length, ◌++◌, refl, List, [], ◌∷◌, negsuc, pos, int16, arith, ◌≡◌, some, true, false,
}
use onwards.SendBuffer.{SendBuffer, init, receive_value, out_duo}
use onwards.SendBuffer.Emit.{receive_value-Emits}
use onwards.ReceiveBuffer.Packet.{frames, Walks}
use onwards.ReceiveBuffer.{ReceiveBuffer, update}
use onwards.Messages.Outbox.{Outbox, Action, sized, named, emptied, perform_all, Holds, AllWrite}
use onwards.Messages.Refines.{perform_all-act_all, delivered_all}

abbrev new_buffer : SendBuffer
unfolding init
new_buffer = init int16 (1 ∷ 1 ∷ 1 ∷ 1 ∷ 1 ∷ 1 ∷ 1 ∷ []) (pos 7)

abbrev new_outbox : Outbox
new_outbox = record { capacity = 7; messages = [] }

-- Two messages of which the second does not fit, a reset, and the second again
abbrev actions : List Action
actions =
    sized 100 (receive_value (9 ∷ [])) (9 ∷ [])
    ∷ named 100 3 (receive_value (5 ∷ 6 ∷ [])) (5 ∷ 6 ∷ [])
    ∷ emptied
    ∷ named 100 3 (receive_value (5 ∷ 6 ∷ [])) (5 ∷ 6 ∷ [])
    ∷ []

written : AllWrite int16 actions
written = (
  receive_value-Emits int16 (9 ∷ []) (omega arith),
  (
    receive_value-Emits int16 (5 ∷ 6 ∷ []) (omega arith),
    (tt, (receive_value-Emits int16 (5 ∷ 6 ∷ []) (omega arith), tt)),
  ),
)

new_buffer-Holds : Holds int16 (negsuc 0) new_buffer new_outbox
unfolding new_buffer
new_buffer-Holds = record { space = 1 ∷ 1 ∷ 1 ∷ 1 ∷ 1 ∷ 1 ∷ 1 ∷ []; same = refl; whole = refl }

perform_all-act_all_example :
    (b : SendBuffer) × (perform_all int16 actions new_buffer
      ≡ some (true ∷ false ∷ true ∷ true ∷ [], b))
    × Holds int16 (negsuc 0) b (record { capacity = 7; messages = (3 ∷ 5 ∷ 6 ∷ []) ∷ [] })
    × (out_duo b ≡ frames int16 ((3 ∷ 5 ∷ 6 ∷ []) ∷ []))
unfolding le_bytes
perform_all-act_all_example =
    perform_all-act_all int16 actions (negsuc 0) new_buffer new_outbox written (omega arith)
      new_buffer-Holds

delivered_all_example :
    (b : SendBuffer) × (perform_all int16 actions new_buffer
      ≡ some (true ∷ false ∷ true ∷ true ∷ [], b))
    × ((r : ReceiveBuffer) (slack : List ℕ)
        → Walks int16
            (pos (length (out_duo b)))
            (update (length (out_duo b)) (record r { width = int16; rbuf = out_duo b ++ slack }))
            ((3 ∷ 5 ∷ 6 ∷ []) ∷ []))
unfolding le_bytes
delivered_all_example =
    delivered_all int16 actions (negsuc 0) new_buffer new_outbox written (omega arith)
      new_buffer-Holds
