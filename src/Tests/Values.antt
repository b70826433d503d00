-- ===== src/Tests/Values.antt =====
-- Numbers, texts and fixed strings at concrete inputs.
use onwards.Prelude.{ℕ, ◌≡◌, [], ◌∷◌, pos, int16, arith}
use onwards.Failure.{ok, bind, Run}
use onwards.ReceiveBuffer.{ReceiveBuffer}
use onwards.ReceiveBuffer.Window.{View, of_view}
use onwards.MarshallingInt.{marshal, read}
use onwards.MarshallingInt.Encode.{decode}
use onwards.MarshallingInt.Decode.{Decodes, read_lem}
use onwards.MarshallingInt.Texts.{marshal-Carries}
use onwards.FixedString.{marshal_fixed, receive_from}
use onwards.FixedString.Content.{holding, terminated}
use onwards.FixedString.Travel.{marshal_fixed-Carries}
use onwards.Wire.{Carries}
use onwards.Prelude.{Bool, true, false, ◌==◌, le_bytes}
use onwards.Failure.{M, ◌>>=◌, return}
use onwards.SendBuffer.{SendBuffer, receive_value}
use onwards.ReceiveBuffer.{give_value}
use onwards.Complex.{number-Carries, mapped-Carries}

-- The number 300, of two bytes.
marshal-Carries_example : Carries int16 (marshal (record { val = 300 })) read (record { val = 300 })
marshal-Carries_example = marshal-Carries int16 (record { val = 300 }) (omega arith)

-- A message that ends in the middle of a number.
abbrev cut_short : View
cut_short = record { before = []; read = 3 ∷ 0 ∷ []; unread = 200 ∷ []; behind = 1 ∷ [] }

read_lem_example :
    (r : Run ReceiveBuffer ℕ) × Decodes int16 (pos 3) cut_short (decode 0 1 (200 ∷ [])) r
    × (read (of_view int16 (pos 3) cut_short) ≡ bind r (λ val b. ok (record { val = val }) b))
read_lem_example = read_lem int16 (pos 3) cut_short

marshal_fixed-Carries_example :
    Carries int16
      (marshal_fixed (holding (97 ∷ 98 ∷ []) (1 ∷ [])))
      (receive_from (7 ∷ 7 ∷ 7 ∷ 7 ∷ []))
      (terminated (97 ∷ 98 ∷ []) (7 ∷ []))
marshal_fixed-Carries_example =
    marshal_fixed-Carries int16 (97 ∷ 98 ∷ []) (1 ∷ []) (7 ∷ 7 ∷ 7 ∷ 7 ∷ []) (omega arith)
      (omega arith, omega arith)

-- A flag as an object
abbrev write_flag : Bool → M SendBuffer (Unit {0})
write_flag true = receive_value (le_bytes 1 1)
write_flag false = receive_value (le_bytes 1 0)

abbrev give_flag : M ReceiveBuffer Bool
give_flag = give_value 1 >>= λ n. return (n == 1)

flag-Carries : (x : Bool) → Carries int16 (write_flag x) give_flag x
flag-Carries true =
    mapped-Carries (λ n. n == 1) (number-Carries int16 1 1 (omega arith) (omega arith))
flag-Carries false =
    mapped-Carries (λ n. n == 1) (number-Carries int16 1 0 (omega arith) (omega arith))
