-- ===== src/Example/Sending.antt =====
-- example/sendExample.cc: one message, of the kind whose number is entered.
use onwards.Prelude.{
  ℕ, ◌==◌, List, [], ◌∷◌, ◌++◌, ℤ, pos, negsuc, Option, none, some, if◌then◌else◌,
}
use onwards.Failure.{M, Run, ok, raised, fault, ◌>>=◌, ◌>>◌, return, codes}
use onwards.Io.{Reply}
use onwards.Sockets.{Sockaddr, with_address}
use onwards.Client.{send_to, wrote, buffer_stack}
use onwards.Example.{
  MessageId, id1, id2, id3, id_byte, Content, vector_text, int_set, float_array, marshal_message,
  emplace_hint, Program, on_stack, print, failure_line,
}

-- ::std::set<int32_t> {...}
abbrev pub set_of : List ℕ → List ℕ → List ℕ
unfolding emplace_hint
set_of [] iset = iset
set_of (a ∷ more) iset = set_of more (emplace_hint a iset)

abbrev pub numbers : List ℕ
numbers = 100 ∷ 97 ∷ 94 ∷ 91 ∷ 88 ∷ 85 ∷ []

-- 1.1f to 6.6f
abbrev pub floats : List ℕ
floats = 0x3f8ccccd ∷ 0x400ccccd ∷ 0x40533333 ∷ 0x408ccccd ∷ 0x40b00000 ∷ 0x40d33333 ∷ []

-- What is marshalled for each id
unfoldable pub content : MessageId → Content
content id1 = vector_text numbers (codes "Proverbs 24:27")
content id2 = int_set (set_of numbers [])
content id3 = float_array floats

abbrev pub marshalling : MessageId → M Program (Unit {0})
marshalling id p = on_stack p (wrote p.stack (marshal_message id (content id) p.stack.out))

abbrev pub sending : Reply → Sockaddr → M Program ℕ
sending r sa p = on_stack p (send_to r sa p.stack)

abbrev pub unknown : M Program ℕ
unknown = print (codes "unknown message id\n") >> return 0

-- The switch, and what stands behind it; the default returns from main.
unfoldable pub choose : Reply → Sockaddr → ℕ → M Program ℕ
unfolding id_byte
choose r sa n =
    if n == id_byte id1
    then (marshalling id1 >> sending r sa)
    else if n == id_byte id2
    then (marshalling id2 >> sending r sa)
    else if n == id_byte id3
    then (marshalling id3 >> sending r sa)
    else unknown

-- An int that is below no id
abbrev pub choice : Reply → Sockaddr → ℤ → M Program ℕ
choice r sa (pos n) = choose r sa n
choice r sa (negsuc n) = unknown

abbrev pub prompt : List ℕ
prompt = codes "Enter the ID of the message to send: 0,1 or 2.\n"

-- What was printed and sent at the end
abbrev pub finished : Run Program ℕ → Option (List ℕ × List (List ℕ × Sockaddr))
finished (ok n p) = some (p.shown, p.stack.sent)
finished (raised e p) = some (p.shown ++ failure_line (e.st), p.stack.sent)
finished fault = none

-- main: `pton` is inet_pton, `s` the socket, `entered` the number that is read from std::cin and `r` the
-- answer to the call that sends.
unfoldable pub send_main :
    (List ℕ → ℤ × List ℕ) → ℤ → ℤ → Reply → List ℕ → Option (List ℕ × List (List ℕ × Sockaddr))
unfolding with_address choose
send_main pton s entered r ar = finished (
    (with_address (pton (codes "127.0.0.1")) 12345 >>= λ sa. print prompt >> choice r sa entered)
      (record { stack = buffer_stack ar s; shown = [] }))
