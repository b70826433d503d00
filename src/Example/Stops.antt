-- ===== src/Example/Stops.antt =====
-- What ends the receiver: a receive that fails, and a datagram without a byte.
use onwards.Prelude.{
  ℕ, ◌≡◌, refl, List, [], ◌∷◌, ◌++◌, pos, drop, arith, ◌∙◌, store_in, splice_front, false, ◌+ℤ◌,
  narrow, ap, some, ◌-ℤ◌,
}
use onwards.Failure.{failure, int, ok, raised, bind, access, ◌>>=◌}
use onwards.ReceiveBuffer.{ReceiveBuffer, give_value, give, check_len, update, next_message}
use onwards.Client.{Stack, datagram, not_received, get_packet, gave}
use onwards.Example.{Program, on_stack, reading, receive_one}
use onwards.Example.Round.{Ready, on_id}

-- What an empty datagram leaves in the buffers
abbrev nothing : Stack → Stack
nothing s = record s {
  out = record (s.out) { buf = [] ++ drop 0 s.out.buf };
  inp = record (s.inp) {
    rbuf = [] ++ drop 0 s.out.buf;
    packet_length = pos 0;
    msg_length = pos 0;
    sub_total = pos 0;
  };
}

get_packet-empty : (s : Stack) → get_packet (datagram []) s ≡ ok false (nothing s)
unfolding get_packet update next_message ◌+ℤ◌ narrow
get_packet-empty s =
    ap
      (λ o. bind (access o s) (λ block s.
        gave (record s { out = record (s.out) { buf = block } })
          (update 0 (record (s.inp) { rbuf = block }))))
      (store_in s.out.buf 0 [] (omega arith) ∙ ap some (splice_front [] s.out.buf))

-- Nothing can be read where there is no message.
give_value-empty :
    (b : ReceiveBuffer) (place : ℕ)
    → b.msg_length ≡ pos 0
    → b.rindex ≡ pos place
    → give_value 1 b
      ≡ raised
          (failure "ReceiveBuffer checkLen" (int (pos 1) ∷ int (pos 0) ∷ int (pos place) ∷ []))
          b
unfolding give_value give check_len ◌-ℤ◌
give_value-empty b place m r = rw (m, r) (ground arith)

module _ (f : ℕ → List ℕ) (p : Program) where
  -- A receive that fails ends the loop.
  pub receive_one-failed :
      (errno : ℕ)
      → receive_one f (not_received errno) p ≡ raised (failure "getPacket" (int (pos errno) ∷ [])) p
  unfolding receive_one get_packet
  receive_one-failed errno = refl

  -- A datagram without a byte ends it: the read of the id throws.
  pub receive_one-empty :
      (ready : Ready p)
      → (p' : Program) × (receive_one f (datagram []) p
          ≡ raised
              (failure "ReceiveBuffer checkLen"
                (int (pos 1) ∷ int (pos 0) ∷ int (pos ready.place) ∷ []))
              p')
        × (p'.shown ≡ p.shown)
  unfolding receive_one on_id
  receive_one-empty ready = (
    record p { stack = nothing p.stack },
    ap (λ r. bind (on_stack p r) (λ here. reading (give_value 1) >>= on_id f))
          (get_packet-empty p.stack)
        ∙ ap
            (λ r.
              bind (on_stack (record p { stack = nothing p.stack }) (gave (nothing p.stack) r))
                (on_id f))
            (give_value-empty (nothing p.stack).inp ready.place refl ready.position),
    refl,
  )
