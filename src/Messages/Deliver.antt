-- ===== src/Messages/Deliver.antt =====
-- From one buffer to the other: a message that is marshalled, sent as a packet and received is read
-- back as the value that was sent.
use onwards.Prelude.{
  true, half_le, ℕ, ◌+◌, ◌≤◌, ◌<◌, ◌≡◌, refl, sym, List, [], ◌++◌, ℤ, pos, Width, half_range, int32,
  size_of, length, take-append, arith, ap, ◌∙◌, append-nil, narrow_pos, le_bytes,
}
use onwards.Failure.{M, ok, bind, ◌>>=◌}
use onwards.SendBuffer.{SendBuffer, out_duo}
use onwards.SendBuffer.Space.{of_view, Fits}
use onwards.ReceiveBuffer
use onwards.ReceiveBuffer.{ReceiveBuffer, update}
use onwards.ReceiveBuffer.Window
use onwards.ReceiveBuffer.Packet.{frame, next_message_lem, length-frame, header_pos}
use onwards.ReceiveBuffer.Window.{View, advance}
use onwards.SendBuffer
use onwards.Messages.{marshal_sized}
use onwards.Messages.Room.{added}
use onwards.Messages.Framing.{marshal_sized_ok}
use onwards.Wire.{Carries}

-- The packet that an empty buffer of the given room sends after `write`.
pub sent_lem :
    (w : Width) (k : ℤ) (body rest : List ℕ)
    → out_duo (of_view w k (added w body (record { done = []; cur = []; rest = rest })))
      ≡ frame w body
unfolding out_duo
sent_lem w k body rest = take-append (length (frame w body) + 0) (frame w body) _ (omega arith)

-- The first message of a packet, when it has been opened
abbrev pub first : Width → List ℕ → List ℕ → View
first w body slack = record {
  before = [];
  read = le_bytes (size_of w) (size_of w + length body);
  unread = body;
  behind = slack;
}

pub opened :
    (w : Width) (b : ReceiveBuffer) (body slack : List ℕ)
    → size_of w + length body < half_range w
    → update (length (frame w body)) (record b { width = w; rbuf = frame w body ++ slack })
      ≡ ok true (ReceiveBuffer.Window.of_view w (pos (length (frame w body))) (first w body slack))
unfolding update
opened w b body slack short =
    rw
      (narrow_pos int32 (length (frame w body))
        (omega (arith, length-frame w body, half_le w _ short)))
      (next_message_lem w (length (frame w body)) b.rindex [] [] body slack short
        (omega (arith, length-frame w body, header_pos w)))

module _ {ℓ} {A : Type ℓ} (w : Width) {mar : M SendBuffer (Unit {0})} {parse : M ReceiveBuffer A}
    {a : A} (c : Carries w mar parse a) where
  -- A receiver whose block begins with the packet finds one message in it, and the value in that,
  -- whatever stands behind the packet and whatever the buffer went through before.
  pub received :
      (b : ReceiveBuffer) (slack : List ℕ)
      → size_of w + length c.bytes < half_range w
      → (b' : ReceiveBuffer) × ((update (length (frame w c.bytes)) >>= λ more. parse)
            (record b { width = w; rbuf = frame w c.bytes ++ slack })
          ≡ ok a b')
  received b slack short = (
    _,
    ap (λ r. bind r (λ _. parse)) (opened w b c.bytes slack short)
        ∙ c.reads w (pos (length (frame w c.bytes))) (first w c.bytes slack) []
            (sym (append-nil c.bytes)),
  )

  -- If a writer and a reader agree on a value, and the empty buffer, whose size the index type
  -- can hold, has room for the message, which is no longer than the maximum, then marshalling
  -- succeeds, and on any receive buffer that the outgoing bytes arrive in, whatever state it was
  -- in and whatever bytes stand behind them, update and the reader return that value.
  pub delivered :
      (k : ℤ) (rest : List ℕ) (max : ℕ)
      → length rest < half_range w
      → size_of w + length c.bytes ≤ length rest
      → size_of w + length c.bytes ≤ max
      → (s : SendBuffer) × (marshal_sized max mar
            (of_view w k (record { done = []; cur = []; rest = rest }))
          ≡ ok tt s)
        × ((b : ReceiveBuffer) (slack : List ℕ)
            → (b' : ReceiveBuffer) × ((update (length (out_duo s)) >>= λ more. parse)
                  (record b { width = w; rbuf = out_duo s ++ slack })
                ≡ ok a b'))
  delivered k rest max fits room short = (
    of_view w k (added w c.bytes empty),
    marshal_sized_ok w k empty (omega arith) refl max c.emits room short,
    λ b slack. rw (sent_lem w k c.bytes rest) (received b slack (omega arith)),
  )
    where
      empty : SendBuffer.Space.View
      empty = record { done = []; cur = []; rest = rest }
