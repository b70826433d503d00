-- ===== src/Client/Answers.antt =====
-- The client ends as the middle tier's answer says.

use onwards.Prelude.{
  ℕ, ◌+◌, ◌-◌, ◌≤◌, ◌<◌, ◌≡◌, ◌≢◌, refl, List, [], ◌∷◌, ◌++◌, ℤ, pos, Bool, true, false, some,
  Width, int16, half_range, length, length-append, drop, drop-append, append_assoc, arith, ap, ◌∙◌,
  splice_front, store, store_in, +ℤ_pos, pos_part, ◌+ℤ◌, take_all, if◌then◌else◌, ◌==◌, ne→==,
}
use onwards.Failure.{M, ok, bind, ◌>>=◌, return, raise, access}
use onwards.ReceiveBuffer.{ReceiveBuffer, give_value, give_bool, update}
use onwards.ReceiveBuffer.Window.{
  View, of_view, advance, Reads, return-Reads, >>=-Reads, give_byte-Reads,
}
use onwards.ReceiveBuffer.Packet.{frame, length-frame}
use onwards.MarshallingInt.{total_size}
use onwards.MarshallingInt.Encode.{encoding}
use onwards.MarshallingInt.Texts.{joined, receive_texts-Reads}
use onwards.Messages.Deliver.{first, opened}
use onwards.Messages.Front.{front_body, text_bytes}
use onwards.Uring.{udp_packet_max}
use onwards.Client.{
  Stack, datagram, get_packet, gave, c_text, string_data, Exit, success, leave, line, answered,
}

abbrev is_bool : ℕ → M ReceiveBuffer Bool
is_bool n = if n == 0 then return false else if n == 1 then return true else raise "giveBool" []

give_bool-Reads : (t : Bool) → Reads give_bool (if t then (1 ∷ []) else (0 ∷ [])) t
unfolding give_bool
give_bool-Reads true =
    >>=-Reads (give_value 1) is_bool (1 ∷ []) [] 1 true (give_byte-Reads 1 (omega arith))
      (return-Reads true)
give_bool-Reads false =
    >>=-Reads (give_value 1) is_bool (0 ∷ []) [] 0 false (give_byte-Reads 0 (omega arith))
      (return-Reads false)

-- A text without a NUL
abbrev pub NoNul : List ℕ → Type 0
NoNul [] = Unit
NoNul (c ∷ cs) = (c ≢ 0) × NoNul cs

c_text_lem : (t more : List ℕ) → NoNul t → c_text (t ++ (0 ∷ more)) ≡ some t
c_text_lem [] more h = refl
c_text_lem (c ∷ t) more h = rw (ne→== c 0 h.0, c_text_lem t more h.1) refl

-- The text, which the NUL behind it ends
string_data_lem :
    (ss : List (List ℕ)) (w : Width) (p : ℤ) (v : View) (rest : List ℕ)
    → total_size ss < half_range int16
    → NoNul (joined ss)
    → v.unread ≡ text_bytes ss ++ (0 ∷ rest)
    → string_data (of_view w p v)
      ≡ ok (joined ss) (of_view w p (advance (text_bytes ss) (0 ∷ rest) v))
unfolding string_data
string_data_lem ss w p v rest small h e =
    ap (λ r. bind r at_text) (receive_texts-Reads ss (omega arith) w p v (0 ∷ rest) e)
    ∙ ap (λ o. access o (of_view w p (advance (text_bytes ss) (0 ∷ rest) v)))
        (ap c_text (ap (λ n. drop n here) start ∙ placed)
          ∙ c_text_lem (joined ss) (rest ++ v.behind) h)
  where
    at_text : List ℕ → M ReceiveBuffer (List ℕ)
    at_text t b = access (c_text (drop (pos_part (b.sub_total +ℤ b.rindex) - length t) b.rbuf)) b

    here : List ℕ
    here = v.before ++ ((v.read ++ text_bytes ss) ++ ((0 ∷ rest) ++ v.behind))

    ahead : List ℕ
    ahead = v.before ++ (v.read ++ encoding 4 (total_size ss))

    regrouped : here ≡ ahead ++ (joined ss ++ (0 ∷ (rest ++ v.behind)))
    regrouped = simp append_assoc

    start :
        pos_part (pos (length v.before) +ℤ pos (length (v.read ++ text_bytes ss)))
          - length (joined ss)
        ≡ length ahead
    start = rw (+ℤ_pos (length v.before) (length (v.read ++ text_bytes ss))) (
        omega (
          arith,
          length-append v.read (text_bytes ss),
          length-append (encoding 4 (total_size ss)) (joined ss),
          length-append v.before (v.read ++ encoding 4 (total_size ss)),
          length-append v.read (encoding 4 (total_size ss)),
        ))

    placed : drop (length ahead) here ≡ joined ss ++ (0 ∷ (rest ++ v.behind))
    placed =
        ap (drop (length ahead)) regrouped
        ∙ drop-append (length ahead) ahead (joined ss ++ (0 ∷ (rest ++ v.behind))) refl

-- How the client ends on an answer
abbrev pub exit_of : List (List ℕ) → Exit
exit_of [] = success
exit_of (s ∷ ss) = leave (line "cmwA:" (joined (s ∷ ss)))

abbrev on_bool : Bool → M ReceiveBuffer Exit
on_bool good =
    if good then return success else (string_data >>= λ t. return (leave (line "cmwA:" t)))

exit_lem :
    (ss : List (List ℕ)) (w : Width) (p : ℤ) (v : View)
    → total_size ss < half_range int16
    → NoNul (joined ss)
    → v.unread ≡ front_body ss
    → (b : ReceiveBuffer) × ((give_bool >>= on_bool) (of_view w p v) ≡ ok (exit_of ss) b)
exit_lem [] w p v small h e = (_, ap (λ r. bind r on_bool) (give_bool-Reads true w p v [] e))
exit_lem (s ∷ ss) w p v small h e =
    let after = advance (0 ∷ []) (text_bytes (s ∷ ss) ++ (0 ∷ [])) v in
    (
      _,
      ap (λ r. bind r on_bool) (give_bool-Reads false w p v (text_bytes (s ∷ ss) ++ (0 ∷ [])) e)
          ∙ ap (λ r. bind r (λ t. return (leave (line "cmwA:" t))))
              (string_data_lem (s ∷ ss) w p after [] small h refl),
    )

module _ (body : List ℕ) (s : Stack) (size : length s.out.buf ≡ udp_packet_max)
    (w : s.inp.width ≡ int16) (short : 2 + length body ≤ udp_packet_max) where
  abbrev packet : List ℕ
  packet = frame int16 body

  abbrev block : List ℕ
  block = packet ++ drop (length packet) s.out.buf

  abbrev pub after_packet : Stack
  after_packet = record s {
    out = record (s.out) { buf = block };
    inp = of_view int16 (pos (length packet)) (first int16 body (drop (length packet) s.out.buf));
  }

  -- A datagram with a message is received, and the message opened.
  pub get_packet_lem : get_packet (datagram packet) s ≡ ok true after_packet
  unfolding get_packet
  get_packet_lem =
      ap (λ t. bind (access (store s.out.buf (pos 0) t) s) (λ block s. opens block t s))
        (take_all udp_packet_max packet (omega (arith, length-frame int16 body)))
      ∙ ap (λ o. bind (access o s) (λ block s. opens block packet s))
          (store_in s.out.buf 0 packet (omega (arith, length-frame int16 body))
            ∙ ap some (splice_front packet s.out.buf))
      ∙ ap
          (λ wd.
            gave (record s { out = record (s.out) { buf = block } })
              (update (length packet) (record (s.inp) { width = wd; rbuf = block })))
          w
      ∙ ap (gave (record s { out = record (s.out) { buf = block } }))
          (opened int16 s.inp body (drop (length packet) s.out.buf) (omega arith))
    where
      opens : List ℕ → List ℕ → M Stack Bool
      opens block t s =
          gave (record s { out = record (s.out) { buf = block } })
            (update (length t) (record (s.inp) { rbuf = block }))

-- An answer is received and read.
pub answered_lem :
    (ss : List (List ℕ)) (s : Stack) (more : M Stack Exit)
    → length s.out.buf ≡ udp_packet_max
    → s.inp.width ≡ int16
    → total_size ss < half_range int16
    → 2 + length (front_body ss) ≤ udp_packet_max
    → NoNul (joined ss)
    → (s' : Stack) × ((get_packet (datagram (frame int16 (front_body ss))) >>= λ here.
            if here then answered else more)
          s
        ≡ ok (exit_of ss) s')
      × (s'.sent ≡ s.sent)
unfolding answered
answered_lem ss s more size w small short h =
    let after = after_packet (front_body ss) s size w short in
    let read =
      exit_lem ss int16 (pos (length (frame int16 (front_body ss))))
        (first int16 (front_body ss) (drop (length (frame int16 (front_body ss))) s.out.buf)) small
        h refl in
    (
      record after { inp = read.0 },
      ap (λ r. bind r (λ here. if here then answered else more))
            (get_packet_lem (front_body ss) s size w short)
          ∙ ap (gave after) (read.1),
      refl,
    )
