-- ===== src/Tests/Programs.antt =====
-- The example programs at concrete inputs.
use onwards.Prelude.{
  ℕ, ◌≡◌, refl, List, [], ◌∷◌, ◌++◌, suc, length, ℤ, pos, Option, none, some, zeros, length-zeros,
  arith,
}
use mathlib.Core.List.{Memᴰ}
use onwards.Prelude.{◌↔◌}
use onwards.ReceiveBuffer.Window.{Reads}
use onwards.Messages.{words}
use onwards.Example.{give_set}
use onwards.Example.Kinds.{count}
use onwards.Example.Sets.{Ascending}
use onwards.Example.Ordered.{give_set-any}
use onwards.Failure.{codes, to_chars}
use onwards.MarshallingInt.Encode.{encoding}
use onwards.Prelude.{le_bytes, signed}
use onwards.Io.{got}
use onwards.Sockets.{Sockaddr}
use onwards.Client.{datagram, not_received}
use onwards.Example.{
  vector_text, int_set, MessageId, id_byte, waits, ends, receive_main, failure_line,
}
use onwards.Example.Sending.{send_main, prompt}
use onwards.Example.Round.{Incoming, message, other}
use onwards.Example.Exchange.{
  AllValid, datagrams, reports, no_answer, no_message, receive_main-messages, receive_main-stopped,
}
use onwards.Example.Sends.{receiver, contents, from_senders, send_main-received}

-- A float is shown as a question mark.
abbrev shown_as : ℕ → List ℕ
shown_as n = b'?' ∷ []

abbrev free : ℤ → Sockaddr → Option ℕ
free s sa = none

-- A vector with -1, an id that is not known, and a set
abbrev three : List Incoming
three =
    message (vector_text (0xffff_ffff ∷ 7 ∷ []) (codes "hi"))
    ∷ other 9 (1 ∷ 2 ∷ [])
    ∷ message (int_set (0xffff_ffff ∷ 7 ∷ []))
    ∷ []

three-AllValid : AllValid three
unfolding le_bytes encoding signed
three-AllValid = (
  (ground arith, omega arith),
  ((omega arith, omega arith, omega arith), ((ground arith, omega arith), tt)),
)

reported_lem :
    reports shown_as three
    ≡ codes
        "Message id: 0\n-1 7 \nhi\nMessage id: 9\nUnexpected message id: \nMessage id: 1\n-1 7 \n"
unfolding id_byte to_chars signed
reported_lem = refl

receive_main-messages_example :
    receive_main shown_as (pos 4) free (zeros 1500) (datagrams three [])
    ≡ some (waits (reports shown_as three))
receive_main-messages_example =
    receive_main-messages shown_as (pos 4) free (zeros 1500) (length-zeros 1500) refl three
      three-AllValid

receive_main-stopped_example :
    ((errno : ℕ)
      → receive_main shown_as (pos 4) free (zeros 1500) (datagrams three (not_received errno ∷ []))
        ≡ some (ends (reports shown_as three ++ failure_line (no_answer errno))))
    × ((place : ℕ) × (receive_main shown_as
            (pos 4)
            free
            (zeros 1500)
            (datagrams three (datagram [] ∷ []))
          ≡ some (ends (reports shown_as three ++ failure_line (no_message place)))))
receive_main-stopped_example =
    receive_main-stopped shown_as (pos 4) free (zeros 1500) (length-zeros 1500) refl three
      three-AllValid []

abbrev local : List ℕ → ℤ × List ℕ
local node = (pos 1, 127 ∷ 0 ∷ 0 ∷ 1 ∷ [])

send_main-received_example :
    (d : MessageId → List ℕ) × ((id : MessageId) (s : ℤ) (n : ℕ) (block : List ℕ)
      → length block ≡ 1500
      → send_main local s (pos (id_byte id)) (got (suc n)) block
        ≡ some (prompt, (d id, receiver (127 ∷ 0 ∷ 0 ∷ 1 ∷ [])) ∷ []))
    × ((ids : List MessageId)
        → receive_main shown_as (pos 4) free (zeros 1500) (from_senders d ids)
          ≡ some (waits (reports shown_as (contents ids))))
send_main-received_example =
    send_main-received shown_as local (127 ∷ 0 ∷ 0 ∷ 1 ∷ []) (pos 4) free (zeros 1500) refl
      (length-zeros 1500) refl

-- A number that comes twice, and one that is below it and comes later
abbrev unordered : List ℕ
unordered = 7 ∷ 0xffff_ffff ∷ 7 ∷ []

give_set-any_example :
    (xs : List ℕ) × Reads give_set (count unordered ++ words unordered) xs
    × Ascending xs
    × ((n : ℕ) → Memᴰ n xs ↔ Memᴰ n unordered)
give_set-any_example = give_set-any unordered (ground arith) (omega arith)
