-- ===== src/Example/Round.antt =====
-- One round of the receiver: a message is received, read and printed.
use onwards.Prelude.{
  ℕ, ◌+◌, ◌<◌, ◌≤◌, ◌≡◌, refl, sym, List, [], ◌∷◌, ◌++◌, ℤ, pos, int16, length, length-append,
  length-drop, drop, arith, ◌∙◌, append_assoc, append-nil, ne→==, ap,
}
use onwards.Failure.{M, ok, bind, ◌>>=◌, ◌>>◌, codes, to_chars}
use onwards.ReceiveBuffer.{ReceiveBuffer, give_value}
use onwards.ReceiveBuffer.Window.{View, of_view, advance, Reads, give_byte-Reads}
use onwards.ReceiveBuffer.Packet.{frame, length-frame}
use onwards.Messages.{words, give_example, give_array}
use onwards.Messages.Deliver.{first}
use onwards.Uring.{udp_packet_max}
use onwards.Client.{Stack, datagram, gave}
use onwards.Client.Answers.{after_packet, get_packet_lem}
use onwards.Example.{
  Content, vector_text, int_set, float_array, id_byte, id1, id2, id3, Program, on_stack, print,
  reading, spaced, show_int, end_line, words_of, give_set, dispatch, receive_one,
}
use onwards.Example.Kinds.{
  body, Sound, words_of-words, give_example-Reads, give_set-Reads, give_array-Reads, length-words,
  count,
}

-- What comes in: a message, or a datagram with another id and any content
pub data Incoming : Type 0 where
  message : Content → Incoming
  other : ℕ → List ℕ → Incoming

abbrev pub id_of : Incoming → ℕ
id_of (message (vector_text ns s)) = id_byte id1
id_of (message (int_set ns)) = id_byte id2
id_of (message (float_array ns)) = id_byte id3
id_of (other n bs) = n

abbrev pub bytes_of : Incoming → List ℕ
bytes_of (message t) = body t
bytes_of (other n bs) = bs

abbrev pub Valid : Incoming → Type 0
Valid (message t) = Sound t × (3 + length (body t) ≤ udp_packet_max)
Valid (other n bs) = (2 < n) × (n < 256) × (3 + length bs ≤ udp_packet_max)

abbrev pub packet : Incoming → List ℕ
packet i = frame int16 (id_of i ∷ bytes_of i)

-- What is printed for a message
abbrev pub text_of : (ℕ → List ℕ) → Incoming → List ℕ
text_of f (message (vector_text ns s)) = spaced show_int ns ++ (end_line ++ s)
text_of f (message (int_set ns)) = spaced show_int ns
text_of f (message (float_array ns)) = spaced f ns ++ end_line
text_of f (other n bs) = codes "Unexpected message id: "

abbrev pub report : (ℕ → List ℕ) → Incoming → List ℕ
report f i =
    (codes "Message id: " ++ (to_chars (pos (id_of i)) ++ end_line)) ++ (text_of f i ++ end_line)

-- The receiver between two rounds
pub record Ready (p : Program) : Type 0 where
  pub size : length p.stack.out.buf ≡ udp_packet_max
  pub width : p.stack.inp.width ≡ int16
  pub place : ℕ
  pub position : p.stack.inp.rindex ≡ pos place

-- A message that is open in the receiver
abbrev pub opened : Program → ℤ → View → Program
opened p k v = record p { stack = record (p.stack) { inp = of_view int16 k v } }

pub reading-Reads :
    {A : Type 0} (m : M ReceiveBuffer A) (bs : List ℕ) (a : A) (p : Program) (k : ℤ) (v : View)
    (rest : List ℕ)
    → Reads m bs a
    → v.unread ≡ bs ++ rest
    → reading m (opened p k v) ≡ ok a (opened p k (advance bs rest v))
reading-Reads m bs a p k v rest r e =
    ap (λ t. on_stack (opened p k v) (gave (opened p k v).stack t)) (r int16 k v rest e)

-- The switch prints what was read, and leaves the shared block as it is.
record Printed (p : Program) (k : ℤ) (v : View) (m : M Program (Unit {0})) (text : List ℕ)
    : Type 0 where
  left : View
  outcome : m (opened p k v) ≡ ok tt (record (opened p k left) { shown = p.shown ++ text })

printed :
    {A : Type 0} (m : M ReceiveBuffer A) (bs : List ℕ) (a : A) (show : A → List ℕ) (text : List ℕ)
    (p : Program) (k : ℤ) (v : View)
    → Reads m bs a
    → v.unread ≡ bs
    → show a ≡ text
    → Printed p k v (reading m >>= λ a. print (show a)) text
printed m bs a show text p k v r e s = record {
  left = advance bs [] v;
  outcome =
      ap (λ t. bind t (λ a. print (show a)))
        (reading-Reads m bs a p k v [] r (e ∙ sym (append-nil bs)))
      ∙ ap (λ t. ok tt (record (opened p k (advance bs [] v)) { shown = p.shown ++ t })) s;
}

dispatch-Printed :
    (f : ℕ → List ℕ) (i : Incoming) (p : Program) (k : ℤ) (v : View)
    → Valid i
    → v.unread ≡ bytes_of i
    → Printed p k v (dispatch f (id_of i)) (text_of f i)
unfolding dispatch id_byte
dispatch-Printed f (message (vector_text ns s)) p k v h e =
    printed give_example (body (vector_text ns s)) (words ns, s)
      (λ a. spaced show_int (words_of a.0) ++ (end_line ++ a.1)) _ p k v
      (give_example-Reads ns s (omega (arith, h.1))) e
      (ap (λ t. spaced show_int t ++ (end_line ++ s)) (words_of-words ns h.0))
dispatch-Printed f (message (int_set ns)) p k v h e =
    printed give_set (body (int_set ns)) ns (spaced show_int) _ p k v
      (give_set-Reads ns h.0.0 h.0.1
        (omega (arith, h.1, length-append (count ns) (words ns), length-words ns)))
      e refl
dispatch-Printed f (message (float_array ns)) p k v h e =
    printed give_array (body (float_array ns)) (words ns) (λ a. spaced f (words_of a) ++ end_line) _
      p k v (give_array-Reads ns h.0.1) e
      (ap (λ t. spaced f t ++ end_line) (words_of-words ns h.0.0))
dispatch-Printed f (other n bs) p k v h e =
    rw
      (
        ne→== n 0 (λ q. omega (arith, h.0, q)),
        ne→== n 1 (λ q. omega (arith, h.0, q)),
        ne→== n 2 (λ q. omega (arith, h.0, q)),
      )
      (record { left = v; outcome = refl })

id-small : (i : Incoming) → Valid i → id_of i < 256
unfolding id_byte
id-small (message (vector_text ns s)) h = omega arith
id-small (message (int_set ns)) h = omega arith
id-small (message (float_array ns)) h = omega arith
id-small (other n bs) h = h.1

packet-room : (i : Incoming) → Valid i → 3 + length (bytes_of i) ≤ udp_packet_max
packet-room (message t) h = h.1
packet-room (other n bs) h = h.2

unfoldable pub on_id : (ℕ → List ℕ) → ℕ → M Program (Unit {0})
on_id f msgid =
    print (codes "Message id: " ++ (to_chars (pos msgid) ++ end_line))
    >> dispatch f msgid
    >> print end_line

module _ (f : ℕ → List ℕ) (i : Incoming) (p : Program) (ready : Ready p) (h : Valid i) where
  room : 2 + length (id_of i ∷ bytes_of i) ≤ udp_packet_max
  room = omega (arith, packet-room i h)

  abbrev after : Stack
  after = after_packet (id_of i ∷ bytes_of i) p.stack ready.size ready.width room

  abbrev here : View
  here = first int16 (id_of i ∷ bytes_of i) (drop (length (packet i)) p.stack.out.buf)

  abbrev message_line : List ℕ
  message_line = codes "Message id: " ++ (to_chars (pos (id_of i)) ++ end_line)

  abbrev announced : Program
  announced = record p { stack = after; shown = p.shown ++ message_line }

  abbrev end : ℤ
  end = pos (length (packet i))

  switched :
      Printed announced end
        (advance (id_of i ∷ []) (bytes_of i) here)
        (dispatch f (id_of i))
        (text_of f i)
  switched = dispatch-Printed f i announced end (advance (id_of i ∷ []) (bytes_of i) here) h refl

  abbrev after_round : Program
  after_round = record (opened announced end switched.left) { shown = p.shown ++ report f i }

  received : receive_one f (datagram (packet i)) p ≡ ok tt after_round
  unfolding receive_one on_id
  received =
      ap (λ r. bind (on_stack p r) (λ here. reading (give_value 1) >>= on_id f))
        (get_packet_lem (id_of i ∷ bytes_of i) p.stack ready.size ready.width room)
      ∙ ap (λ r. bind r (on_id f))
          (reading-Reads (give_value 1) (id_of i ∷ []) (id_of i) (record p { stack = after }) end
            here (bytes_of i) (give_byte-Reads (id_of i) (id-small i h)) refl)
      ∙ ap (λ r. bind r (λ _. print end_line)) switched.outcome
      ∙ ap (λ t. ok tt (record (opened announced end switched.left) { shown = t }))
          (simp append_assoc)

  after_round-Ready : Ready after_round
  after_round-Ready = record {
    size = omega (
      arith,
      room,
      length-append (packet i) (drop (length (packet i)) p.stack.out.buf),
      length-frame int16 (id_of i ∷ bytes_of i),
      length-drop (length (packet i)) p.stack.out.buf,
      ready.size,
    );
    width = refl;
    place = length switched.left.read;
    position = refl;
  }

  -- The message is received and printed, and the receiver is ready for another.
  pub receive_one_lem :
      (p' : Program) × (receive_one f (datagram (packet i)) p ≡ ok tt p')
      × (p'.shown ≡ p.shown ++ report f i)
      × Ready p'
  receive_one_lem = (after_round, received, refl, after_round-Ready)
