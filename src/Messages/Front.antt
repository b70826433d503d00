-- ===== src/Messages/Front.antt =====
-- front::marshal of src/tiers/cmwAmb.mdl.hh on a fresh buffer: what the middle tier answers a front tier.
use mathlib.Core.Path.{subst}
use native.Mathlib.Decide.{dec_le}
use onwards.Prelude.{
  ℕ, ◌+◌, ◌≤◌, ◌<◌, ◌≡◌, refl, sym, List, [], ◌∷◌, ◌++◌, pos, negsuc, int16, half_range, length,
  arith, ap, ◌∙◌, inr, append_assoc, zeros, length-zeros,
}
use onwards.Failure.{Run, ok, raised, fault}
use onwards.SendBuffer.{SendBuffer, init, out_duo}
use onwards.SendBuffer.Space.{View, size, of_view, Fits}
use onwards.SendBuffer.Emit.{Emits, >>-Emits, receive_value-Emits}
use onwards.ReceiveBuffer.Packet.{frame}
use onwards.MarshallingInt.{total_size}
use onwards.MarshallingInt.Encode.{encoding}
use onwards.MarshallingInt.Texts.{joined, receive_texts-Emits}
use onwards.Messages.{mar_front, front_marshal, marshal_sized}
use onwards.Messages.Room.{added}
use onwards.Messages.Framing.{marshal_sized_ok, marshal_sized_refused}
use onwards.Messages.Deliver.{sent_lem}
use onwards.Uring.{udp_packet_max}

-- The content of the message
abbrev pub text_bytes : List (List ℕ) → List ℕ
text_bytes ss = encoding 4 (total_size ss) ++ joined ss

abbrev pub front_body : List (List ℕ) → List ℕ
front_body [] = 1 ∷ []
front_body (s ∷ ss) = (0 ∷ []) ++ (text_bytes (s ∷ ss) ++ (0 ∷ []))

pub mar_front-Emits :
    (ss : List (List ℕ))
    → total_size ss < half_range int16
    → Emits int16 (mar_front ss 0) (front_body ss)
unfolding mar_front
mar_front-Emits [] h = receive_value-Emits int16 (1 ∷ []) (omega arith)
mar_front-Emits (s ∷ ss) h =
    subst (Emits int16 (mar_front (s ∷ ss) 0))
      (append_assoc (0 ∷ []) (text_bytes (s ∷ ss)) (0 ∷ []))
      (>>-Emits int16
        (>>-Emits int16 (receive_value-Emits int16 (0 ∷ []) (omega arith))
          (receive_texts-Emits int16 (s ∷ ss) h))
        (receive_value-Emits int16 (0 ∷ []) (omega arith)))

abbrev pub unused : View
unused = record { done = []; cur = []; rest = zeros udp_packet_max }

pub init-unused :
    init int16 (zeros udp_packet_max) (pos udp_packet_max) ≡ of_view int16 (negsuc 0) unused
unfolding init
init-unused =
    ap (λ n. init int16 (zeros udp_packet_max) (pos n)) {y = size unused}
      (omega (arith, length-zeros udp_packet_max))

abbrev out_of : Run SendBuffer (Unit {0}) → List ℕ
out_of (ok a b) = out_duo b
out_of (raised e b) = []
out_of fault = []

fits : Fits int16 unused
fits = omega (arith, length-zeros udp_packet_max)

pub front_marshal_ok :
    (ss : List (List ℕ))
    → total_size ss < half_range int16
    → 2 + length (front_body ss) ≤ udp_packet_max
    → front_marshal udp_packet_max ss 0 (init int16 (zeros udp_packet_max) (pos udp_packet_max))
      ≡ ok tt (of_view int16 (negsuc 0) (added int16 (front_body ss) unused))
unfolding front_marshal
front_marshal_ok ss h room =
    ap (marshal_sized udp_packet_max (mar_front ss 0)) init-unused
    ∙ marshal_sized_ok int16 (negsuc 0) unused fits refl udp_packet_max (mar_front-Emits ss h)
        (omega (arith, length-zeros udp_packet_max)) room

-- Where the marshalling succeeds, the outgoing bytes are those of the content.
pub front_marshal-sent :
    (ss : List (List ℕ)) (m : SendBuffer)
    → total_size ss < half_range int16
    → front_marshal udp_packet_max ss 0 (init int16 (zeros udp_packet_max) (pos udp_packet_max))
      ≡ ok tt m
    → (out_duo m ≡ frame int16 (front_body ss)) × (2 + length (front_body ss) ≤ udp_packet_max)
unfolding front_marshal
front_marshal-sent ss m h e = elim (dec_le (2 + length (front_body ss)) udp_packet_max) [
  | yes room ↦ (
    ap out_of (sym e ∙ front_marshal_ok ss h room)
        ∙ sent_lem int16 (negsuc 0) (front_body ss) (zeros udp_packet_max),
    room,
  )
  | no long ↦
      let refused =
        marshal_sized_refused int16 (negsuc 0) unused fits refl udp_packet_max
          (mar_front-Emits ss h) (inr (omega arith)) in
      absurd (
        cc (
          ap (marshal_sized udp_packet_max (mar_front ss 0)) (sym init-unused) ∙ e,
          refused.outcome,
        ))
]
