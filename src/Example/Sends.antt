-- ===== src/Example/Sends.antt =====
-- The sender sends the message that was asked for, and the receiver prints it.
use onwards.Prelude.{
  ℕ, suc, ◌≡◌, refl, sym, List, [], ◌∷◌, ℤ, pos, int16, length, le_bytes, arith, ap, ap₂, ◌∙◌,
  Option, none, some, signed,
}
use onwards.Failure.{Run, bind, codes, ◌>>◌}
use onwards.SendBuffer.{SendBuffer}
use onwards.MarshallingInt.Encode.{encoding}
use onwards.Messages.Deliver.{sent_lem}
use onwards.Io.{got}
use onwards.Uring.{udp_packet_max}
use onwards.Sockets.{Sockaddr, sockaddr, with_address}
use onwards.Client.{Received, datagram, buffer_stack, send_to, wrote}
use onwards.Example.{
  on_stack, MessageId, id1, id2, id3, id_byte, waits, receive_main, emplace_hint, marshal_message,
  Program,
}
use onwards.Example.Sending.{content, send_main, choose, prompt, finished, marshalling, sending}
use onwards.Example.Kinds.{body}
use onwards.Example.Round.{Incoming, message, Valid, packet, id_of}
use onwards.Example.Exchange.{
  AllValid, datagrams, reports, kind, marshal_message_lem, receive_main-messages, sent_as_lem,
}

abbrev pub contents : List MessageId → List Incoming
contents [] = []
contents (id ∷ ids) = message (content id) ∷ contents ids

content-Valid : (id : MessageId) → Valid (message (content id))
unfolding content le_bytes encoding emplace_hint signed
content-Valid id1 = (ground arith, omega arith)
content-Valid id2 = (ground arith, omega arith)
content-Valid id3 = (ground arith, omega arith)

kind-content : (id : MessageId) → kind (content id) ≡ id
unfolding content
kind-content id1 = refl
kind-content id2 = refl
kind-content id3 = refl

-- 127.0.0.1:12345, as inet_pton gives it
abbrev pub receiver : List ℕ → Sockaddr
receiver address = record (sockaddr 12345) { address = address }

module _ (pton : List ℕ → ℤ × List ℕ) (s : ℤ) (n : ℕ) (ar address : List ℕ)
    (size : length ar ≡ udp_packet_max) (found : pton (codes "127.0.0.1") ≡ (pos 1, address)) where
  abbrev after_prompt : Program
  after_prompt = record { stack = buffer_stack ar s; shown = prompt }

  marshalled_sent :
      (id : MessageId)
      → finished ((marshalling id >> sending (got (suc n)) (receiver address)) after_prompt)
        ≡ some (prompt, (packet (message (content id)), receiver address) ∷ [])
  unfolding send_to buffer_stack
  marshalled_sent id =
      ap (λ k. finish (marshal_message k (content id) (buffer_stack ar s).out))
        (sym (kind-content id))
      ∙ ap finish (marshal_message_lem ar s (content id) size (content-Valid id))
      ∙ ap (λ d. some (prompt, (d, receiver address) ∷ []))
          (sent_lem int16 s (id_of (message (content id)) ∷ body (content id)) ar)
    where
      finish : Run SendBuffer (Unit {0}) → Option (List ℕ × List (List ℕ × Sockaddr))
      finish r = finished (
          bind (on_stack after_prompt (wrote after_prompt.stack r))
            (λ _. sending (got (suc n)) (receiver address)))

  choosing :
      (id : MessageId)
      → send_main pton s (pos (id_byte id)) (got (suc n)) ar
        ≡ finished (choose (got (suc n)) (receiver address) (id_byte id) after_prompt)
  unfolding send_main with_address
  choosing id = rw (found, finished) refl

  sends :
      (id : MessageId)
      → send_main pton s (pos (id_byte id)) (got (suc n)) ar
        ≡ some (prompt, (packet (message (content id)), receiver address) ∷ [])
  unfolding choose id_byte
  sends id1 = choosing id1 ∙ marshalled_sent id1
  sends id2 = choosing id2 ∙ marshalled_sent id2
  sends id3 = choosing id3 ∙ marshalled_sent id3

contents-Valid : (ids : List MessageId) → AllValid (contents ids)
contents-Valid [] = tt
contents-Valid (id ∷ ids) = (content-Valid id, contents-Valid ids)

-- The datagrams of senders
abbrev pub from_senders : (MessageId → List ℕ) → List MessageId → List Received
from_senders d [] = []
from_senders d (id ∷ ids) = datagram (d id) ∷ from_senders d ids

same_datagrams :
    (ids : List MessageId)
    → from_senders (λ id. packet (message (content id))) ids ≡ datagrams (contents ids) []
same_datagrams [] = refl
same_datagrams (id ∷ ids) =
    ap₂ (λ d ds. datagram d ∷ ds) (sym (sent_as_lem (message (content id)) (content-Valid id)))
      (same_datagrams ids)

-- If the address of the receiver is found, for each of the three ids a run of the sender with a
-- socket, an array of 1500 bytes and a call that sends prints its prompt and sends one datagram
-- to port 12345 of that address, the same one whatever the socket and the array; and the
-- receiver, if its socket can be bound and its array has 1500 bytes, given any sequence of these
-- three datagrams, prints the ids and contents in that sequence and waits.
pub send_main-received :
    (f : ℕ → List ℕ) (pton : List ℕ → ℤ × List ℕ) (address : List ℕ) (k : ℤ)
    (bind_to : ℤ → Sockaddr → Option ℕ) (ar : List ℕ)
    → pton (codes "127.0.0.1") ≡ (pos 1, address)
    → length ar ≡ udp_packet_max
    → bind_to k (sockaddr 12345) ≡ none
    → (d : MessageId → List ℕ) × ((id : MessageId) (s : ℤ) (n : ℕ) (block : List ℕ)
        → length block ≡ udp_packet_max
        → send_main pton s (pos (id_byte id)) (got (suc n)) block
          ≡ some (prompt, (d id, receiver address) ∷ []))
      × ((ids : List MessageId)
          → receive_main f k bind_to ar (from_senders d ids)
            ≡ some (waits (reports f (contents ids))))
send_main-received f pton address k bind_to ar found size bound = (
  λ id. packet (message (content id)),
  λ id s n block e. sends pton s n block address e found id,
  λ ids.
      ap (receive_main f k bind_to ar) (same_datagrams ids)
      ∙ receive_main-messages f k bind_to ar size bound (contents ids) (contents-Valid ids),
)
