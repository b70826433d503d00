-- ===== src/Tests/Formats.antt =====
-- The byte orders at concrete inputs.
use onwards.Prelude.{◌≡◌, [], ◌∷◌, pos, int16, arith}
use onwards.Failure.{fault}
use onwards.ReceiveBuffer.Window.{Reads, View, of_view}
use onwards.ByteOrder.{most_significant_first, least_significant_first, read_as}
use onwards.ByteOrder.Agree.{read_as-held}
use onwards.ByteOrder.Wide.{read_as-fault}

-- The number 1, into a variable that holds 2
read_as-held_example : Reads (read_as most_significant_first 2 2) (0 ∷ 1 ∷ []) 3
read_as-held_example =
    read_as-held most_significant_first 2 2 1 (λ e. cc) (omega arith) (omega arith)

abbrev eight_bytes : View
eight_bytes = record {
  before = [];
  read = [];
  unread = 1 ∷ 0 ∷ 0 ∷ 0 ∷ 0 ∷ 0 ∷ 0 ∷ 0 ∷ [];
  behind = [];
}

read_as-fault_example :
    read_as least_significant_first 8 0 (of_view int16 (pos 8) eight_bytes) ≡ fault
read_as-fault_example =
    read_as-fault least_significant_first 8 0 int16 (pos 8) eight_bytes (λ e. cc) (omega arith)
      (omega arith)
