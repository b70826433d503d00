-- ===== src/Poly/Runs.antt =====
-- The receiver of receivePoly.cc over the messages that testing::marshal makes.
use native.Mathlib.Decide.{dec_le}
use onwards.Prelude.{
  ℕ, ◌+◌, ◌≤◌, ◌≡◌, inl, refl, sym, List, [], pos, int16, length, length-append, length-drop, drop,
  arith, ap, ◌∙◌, zeros, length-zeros, append-nil,
}
use onwards.Failure.{M, Run, ok, raised, fault, bind, ◌>>=◌}
use onwards.SendBuffer.{SendBuffer, init, out_duo}
use onwards.SendBuffer.Space.{View, of_view}
use onwards.ReceiveBuffer
use onwards.ReceiveBuffer.Window
use onwards.ReceiveBuffer.Packet.{frame, length-frame}
use onwards.Complex.{marshal_collection}
use onwards.Messages.{marshal_sized}
use onwards.Messages.Framing.{marshal_sized_ok, marshal_sized_refused}
use onwards.Messages.Deliver.{first, sent_lem}
use onwards.Wire.{Carries}
use onwards.Uring.{udp_packet_max}
use onwards.Client.{Stack, datagram, get_packet}
use onwards.Client.Answers.{after_packet, get_packet_lem}
use onwards.Example.{Program, on_stack, reading}
use onwards.Example.Round.{Ready, opened, reading-Reads}
use onwards.Poly.{Collection, empty, segments, testing_marshal, testing_give}
use onwards.Poly.Objects.{IsValid}
use onwards.Poly.Arrives.{arrived, marshal_collection-Carries}

-- A new BufferStack of 1500 bytes
abbrev fresh : View
fresh = record { done = []; cur = []; rest = zeros udp_packet_max }

abbrev pub new_out : SendBuffer
new_out = record (init int16 (zeros udp_packet_max) (pos udp_packet_max)) { sock = pos 3 }

-- A collection that testing::marshal makes a message of, in a new buffer
pub record Sent (a : Collection) : Type 0 where
  pub valid : IsValid a
  pub made : SendBuffer
  pub marshalled : testing_marshal 10000 a new_out ≡ ok tt made

module _ (a : Collection) (s : Sent a) where
  pub carried : Carries int16 (marshal_collection (segments a)) (testing_give empty) (arrived a)
  carried = marshal_collection-Carries int16 a s.valid

  new_out_fresh : new_out ≡ of_view int16 (pos 3) fresh
  unfolding init
  new_out_fresh =
      ap (λ n. record (init int16 (zeros udp_packet_max) (pos n)) { sock = pos 3 })
        {x = udp_packet_max} {y = 0 + 0 + length (zeros udp_packet_max)}
        (omega (arith, length-zeros udp_packet_max))

  abbrev out_of : Run SendBuffer (Unit {0}) → List ℕ
  out_of (ok t b) = out_duo b
  out_of (raised e b) = []
  out_of fault = []

  pub packet_lem :
      (out_duo s.made ≡ frame int16 (carried.bytes)) × (2 + length (carried.bytes) ≤ udp_packet_max)
  unfolding testing_marshal
  packet_lem = elim (dec_le (2 + length (carried.bytes)) udp_packet_max) [
    | yes room ↦ (
      ap out_of (
            sym s.marshalled
            ∙ ap (marshal_sized 10000 (marshal_collection (segments a))) new_out_fresh
            ∙ marshal_sized_ok int16 (pos 3) fresh (omega (arith, length-zeros udp_packet_max)) refl
                10000 carried.emits (omega (arith, length-zeros udp_packet_max)) (omega arith))
          ∙ sent_lem int16 (pos 3) (carried.bytes) (zeros udp_packet_max),
      room,
    )
    | no long ↦
        let refused =
          marshal_sized_refused int16 (pos 3) fresh (omega (arith, length-zeros udp_packet_max))
            refl 10000 carried.emits (inl (omega (arith, length-zeros udp_packet_max))) in
        absurd (
          cc (
            ap (marshal_sized 10000 (marshal_collection (segments a))) (sym new_out_fresh)
                ∙ s.marshalled,
            refused.outcome,
          ))
  ]

  module _ (p : Program) (ready : Ready p) where
    abbrev pub body : List ℕ
    body = carried.bytes

    abbrev pub after : Stack
    after = after_packet body p.stack ready.size ready.width packet_lem.1

    abbrev pub here : ReceiveBuffer.Window.View
    here = first int16 body (drop (length (frame int16 body)) p.stack.out.buf)

    abbrev pub read : Program
    read =
        opened (record p { stack = after }) (pos (length (frame int16 body)))
          (ReceiveBuffer.Window.advance body [] here)

    -- The message is received and the collection read.
    pub received :
        (next : Collection → M Program (Unit {0}))
        → bind
            (on_stack p (get_packet (datagram (out_duo s.made)) p.stack))
            (λ more. reading (testing_give empty) >>= next)
          ≡ next (arrived a) read
    received next =
        ap
          (λ d.
            bind (on_stack p (get_packet (datagram d) p.stack))
              (λ more. reading (testing_give empty) >>= next))
          packet_lem.0
        ∙ ap (λ r. bind (on_stack p r) (λ more. reading (testing_give empty) >>= next))
            (get_packet_lem body p.stack ready.size ready.width packet_lem.1)
        ∙ ap (λ r. bind r next)
            (reading-Reads (testing_give empty) body (arrived a) (record p { stack = after })
              (pos (length (frame int16 body))) here [] carried.reads (sym (append-nil body)))

    pub read-Ready : Ready read
    read-Ready = record {
      size = omega (
        arith,
        packet_lem.1,
        ready.size,
        length-append (frame int16 body) (drop (length (frame int16 body)) p.stack.out.buf),
        length-frame int16 body,
        length-drop (length (frame int16 body)) p.stack.out.buf,
      );
      width = refl;
      place = length (ReceiveBuffer.Window.advance body [] here).read;
      position = refl;
    }
