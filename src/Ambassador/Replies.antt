-- ===== src/Ambassador/Replies.antt =====
-- What a front tier is told (ioUring::sendto, and the handler of Recv in main of src/tiers/cmwAmb.cc)

use onwards.Prelude.{
  ℤ, length-zeros, ℕ, suc, ◌+◌, ◌≤◌, ◌<◌, ◌≡◌, refl, List, [], ◌∷◌, ◌++◌, pos, negsuc, length,
  length-append, arith, ap, ◌∙◌, append-nil, int16, half_range, inr,
}
use onwards.Failure.{raised, Failure}
use onwards.SendBuffer
use onwards.SendBuffer.{init, receive_value}
use onwards.SendBuffer.Space
use onwards.MarshallingInt.Encode.{encoding}
use onwards.Messages.Room.{Unchanged}
use onwards.Messages.Front.{mar_front-Emits, init-unused, unused}
use onwards.Messages.{marshal_sized, mar_front, front_marshal}
use onwards.Messages.Framing.{marshal_sized_refused}
use onwards.Compressed.{Quicklz}
use onwards.Uring.{udp_packet_max, sub_q}
use onwards.Ambassador.{Amb, nop, Socky}
use onwards.Ambassador.Ring.{front_message, message_of, ring_sendto}
use onwards.Ambassador.Order.{entries, interrupted, ring_sendto-blank}

front_message-long :
    {q : Quicklz} (t : List ℕ)
    → udp_packet_max ≤ length t
    → length t < half_range int16
    → (e : Failure) × ((s : Amb q) → front_message (t ∷ []) s ≡ raised e s)
unfolding front_message message_of front_marshal init
front_message-long t long h = (
  refused.thrown,
  λ s.
      ap (λ r. message_of r s)
        (ap (marshal_sized udp_packet_max (mar_front (t ∷ []) 0)) init-unused ∙ refused.outcome),
)
  where
    refused : Unchanged int16 (negsuc 0) unused (
        marshal_sized udp_packet_max
          (mar_front (t ∷ []) 0)
          (SendBuffer.Space.of_view int16 (negsuc 0) unused))
    refused =
        marshal_sized_refused int16 (negsuc 0) unused (omega (arith, length-zeros udp_packet_max))
          refl udp_packet_max (mar_front-Emits (t ∷ []) (omega arith))
          (inr (
            omega (
              arith,
              length-append (encoding 4 (length t + 0)) (t ++ []),
              length-append (encoding 4 (length t + 0) ++ (t ++ [])) (0 ∷ []),
              ap length (append-nil t),
            )))

-- A text of 1500 or more bytes, fewer than 2 to the 15, makes sendto throw and leaves an empty
-- entry as the newest of the ring and all others as they were, if at most 512 entries wait for
-- the kernel, and the calls of io_uring_submit_and_wait to come are any number that a signal
-- interrupts and then one that takes at least one entry.
pub ring_sendto-long :
    {q : Quicklz} (so : Socky) (t : List ℕ) (k n : ℕ) (more : List ℤ) (s : Amb q)
    → udp_packet_max ≤ length t
    → length t < half_range int16
    → length s.queued ≤ sub_q
    → s.submissions ≡ interrupted k ++ (pos (suc n) ∷ more)
    → (e : Failure) × (s' : Amb q) × (ring_sendto so (t ∷ []) s ≡ raised e s')
      × (entries s' ≡ nop ∷ entries s)
ring_sendto-long so t k n more s long h room coming =
    let (e, refused) = front_message-long t long h in
    let (s', threw, order) = ring_sendto-blank k n more so (t ∷ []) s e room coming refused in
    (e, s', threw, order)
