-- ===== src/Experimental/Batch.antt =====
-- The packets that one read brought, taken one after the other.
use onwards.Prelude.{
  ℕ, suc, ◌+◌, ◌-◌, ◌≤◌, ◌<◌, ◌≡◌, refl, sym, ap, ◌∙◌, List, [], ◌∷◌, ◌++◌, pos, ◌+ℤ◌, +ℤ_pos,
  int32, half_range, signed, signed_pos, narrow, narrow_pos, Bool, true, false, if◌then◌else◌,
  length, length-append, drop, load, append_assoc, arith,
}
use onwards.Failure.{M, ok, bind, rethrow, access, return, ◌>>=◌}
use onwards.Experimental.Tcp.{
  ReceiveBufferTcp, bulk_read, set_size, take_size, begin_packet, end_packet, got_packet_tcp,
  read_content, drain,
}
use onwards.Experimental.Steps.{
  loaded, begins_four, size_kept, ends_whole, none_left, bulk_read-empty,
}

-- A packet: the four bytes of the length of its content, and the content
pub record Packet (decode : List ℕ → ℕ) : Type 0 where
  pub prefix : List ℕ
  pub body : List ℕ
  pub four : length prefix ≡ 4
  pub sized : decode prefix ≡ length body
  pub small : 4 + length body < half_range int32

module _ {decode : List ℕ → ℕ} where
  abbrev pub joined_packets : List (Packet decode) → List ℕ
  joined_packets [] = []
  joined_packets (p ∷ ps) = p.prefix ++ (p.body ++ joined_packets ps)

  abbrev pub bodies : List (Packet decode) → List (List ℕ)
  bodies [] = []
  bodies (p ∷ ps) = p.body ∷ bodies ps

  -- Every packet fits in a buffer of the size.
  abbrev pub AllFit : ℕ → List (Packet decode) → Type 0
  AllFit n [] = Unit
  AllFit n (p ∷ ps) = (4 + length p.body ≤ n) × AllFit n ps

  -- The buffer before the packets that are left
  abbrev pub before :
      ReceiveBufferTcp → (done : List ℕ) → List (Packet decode) → List ℕ → ReceiveBufferTcp
  before b done ps slack = record b {
    rbuf = done ++ (joined_packets ps ++ slack);
    index = length done;
    bytes_available = length (joined_packets ps);
    initial = true;
  }

  module _ (b : ReceiveBufferTcp) (done slack : List ℕ) (p : Packet decode)
      (ps : List (Packet decode)) (fits : 4 + length p.body ≤ b.bufsize) where
    abbrev total : ℕ
    total = 4 + length p.body

    -- The header is read,
    abbrev begun : ReceiveBufferTcp
    begun = record (before b done (p ∷ ps) slack) {
      index = length done + 4;
      packet_length = pos total;
      initial = false;
    }

    lengths : length (joined_packets (p ∷ ps)) ≡ total + length (joined_packets ps)
    lengths = omega (
      arith,
      length-append p.prefix (p.body ++ joined_packets ps),
      length-append p.body (joined_packets ps),
      p.four,
    )

    begins : begin_packet decode (before b done (p ∷ ps) slack) ≡ ok true begun
    unfolding take_size
    begins =
        begins_four decode (before b done (p ∷ ps) slack) refl (omega (arith, lengths, p.four))
        ∙ ap
            (λ o.
              bind (access o opening)
                (λ four. set_size (narrow int32 (signed int32 (decode four) +ℤ pos 4))))
            (ap (λ t. load (done ++ t) (pos (length done)) (pos 4))
                (append_assoc p.prefix (p.body ++ joined_packets ps) slack)
              ∙ loaded done p.prefix ((p.body ++ joined_packets ps) ++ slack) (length done) 4 refl
                  (sym p.four))
        ∙ ap (λ n. set_size n opening) size
        ∙ size_kept opening total fits
      where
        opening : ReceiveBufferTcp
        opening = record (before b done (p ∷ ps) slack) { packet_length = pos 4 }

        size : narrow int32 (signed int32 (decode p.prefix) +ℤ pos 4) ≡ pos total
        size =
            ap (λ n. narrow int32 (signed int32 n +ℤ pos 4)) p.sized
            ∙ ap (λ z. narrow int32 (z +ℤ pos 4))
                (signed_pos int32 (length p.body) (omega (arith, p.small)))
            ∙ ap (narrow int32) (+ℤ_pos (length p.body) 4)
            ∙ narrow_pos int32 (length p.body + 4) (omega (arith, p.small))
            ∙ ap pos (omega arith)

    -- the packet is there,
    abbrev complete : ReceiveBufferTcp
    complete = record begun { bytes_available = length (joined_packets ps); initial = true }

    completes : end_packet begun ≡ ok true complete
    completes =
        ends_whole begun total refl (omega (arith, lengths))
        ∙ ap (λ n. ok true (record complete { bytes_available = n })) (omega (arith, lengths))

    takes : got_packet_tcp decode (before b done (p ∷ ps) slack) ≡ ok true complete
    unfolding got_packet_tcp
    takes = ap (λ r. rethrow cleared (bind r going_on)) begins ∙ ap (rethrow cleared) completes
      where
        cleared : ReceiveBufferTcp → ReceiveBufferTcp
        cleared b = record b { bytes_available = 0 }

        going_on : Bool → M ReceiveBufferTcp Bool
        going_on here = if here then end_packet else λ b. ok false b

    -- and its content is read.
    abbrev after : ReceiveBufferTcp
    after = before (record b { packet_length = pos total }) (done ++ (p.prefix ++ p.body)) ps slack

    content_read : read_content complete ≡ ok p.body after
    unfolding read_content
    content_read =
        ap (λ o. bind (access o complete) at_end)
          (ap (λ t. load t (pos (length done + 4)) (pos (total - 4))) regrouped
            ∙ loaded (done ++ p.prefix) p.body (joined_packets ps ++ slack) (length done + 4)
                (total - 4) (omega (arith, length-append done p.prefix, p.four)) (omega arith))
        ∙ λ i. ok p.body (record after { rbuf = block i; index = place i })
      where
        at_end : List ℕ → M ReceiveBufferTcp (List ℕ)
        at_end bs b = ok bs (record b { index = b.index + (total - 4) })

        place : length done + 4 + (total - 4) ≡ length (done ++ (p.prefix ++ p.body))
        place =
            omega (
              arith,
              length-append done (p.prefix ++ p.body),
              length-append p.prefix p.body,
              p.four,
            )

        regrouped :
            done ++ ((p.prefix ++ (p.body ++ joined_packets ps)) ++ slack)
            ≡ (done ++ p.prefix) ++ (p.body ++ (joined_packets ps ++ slack))
        regrouped = simp append_assoc

        block :
            done ++ ((p.prefix ++ (p.body ++ joined_packets ps)) ++ slack)
            ≡ (done ++ (p.prefix ++ p.body)) ++ (joined_packets ps ++ slack)
        block = simp append_assoc

  pub drain_lem :
      (b : ReceiveBufferTcp) (done slack : List ℕ) (ps : List (Packet decode))
      → AllFit b.bufsize ps
      → (b' : ReceiveBufferTcp) × (drain decode (suc (length ps)) (before b done ps slack)
          ≡ ok (bodies ps) b')
        × (b'.bytes_available ≡ 0)
  unfolding drain
  drain_lem b done slack [] h =
      none_left decode b done slack
        (λ here. if here then (read_content >>= λ p. return (p ∷ [])) else return []) refl
  drain_lem b done slack (p ∷ ps) h =
      let more =
        drain_lem (record b { packet_length = pos (4 + length p.body) })
          (done ++ (p.prefix ++ p.body)) slack ps h.1 in
      (
        more.0,
        ap (λ r. bind r going_on) (takes b done slack p ps h.0)
            ∙ ap (λ r. bind r to_next) (content_read b done slack p ps h.0)
            ∙ ap (λ r. bind r (λ bs. return (p.body ∷ bs))) more.1,
        more.2,
      )
    where
      to_next : List ℕ → M ReceiveBufferTcp (List (List ℕ))
      to_next q = drain decode (suc (length ps)) >>= λ qs. return (q ∷ qs)

      going_on : Bool → M ReceiveBufferTcp (List (List ℕ))
      going_on here = if here then (read_content >>= to_next) else return []

  -- What fits together fits one by one.
  fit_all : (n : ℕ) (ps : List (Packet decode)) → length (joined_packets ps) ≤ n → AllFit n ps
  fit_all n [] h = tt
  fit_all n (p ∷ ps) h =
      let size = length-append p.prefix (p.body ++ joined_packets ps) in
      let more = length-append p.body (joined_packets ps) in
      (omega (arith, size, more, p.four), fit_all n ps (omega (arith, size, more)))

  -- If a ReceiveBufferTCP is between two packets with no bytes available and its BulkRead gets
  -- whole packets that fit in the buffer together, each with the length of its content in its
  -- first four bytes, then a caller that reads each packet to its end gets their contents from
  -- GotPacket one after the other, in their order, and then false, with no bytes left.
  pub bulk_read-drain :
      (b : ReceiveBufferTcp) (ps : List (Packet decode))
      → b.bytes_available ≡ 0
      → b.initial ≡ true
      → length b.rbuf ≡ b.bufsize
      → length (joined_packets ps) ≤ b.bufsize
      → (b' : ReceiveBufferTcp) × ((bulk_read (joined_packets ps) >>= λ _.
              drain decode (suc (length ps)))
            b
          ≡ ok (bodies ps) b')
        × (b'.bytes_available ≡ 0)
  bulk_read-drain b ps idle first size room =
      let slack = drop (length (joined_packets ps)) b.rbuf in
      let done = drain_lem b [] slack ps (fit_all b.bufsize ps room) in
      (
        done.0,
        ap (λ r. bind r (λ _. drain decode (suc (length ps))))
              (ap (bulk_read (joined_packets ps)) same
                ∙ bulk_read-empty b (joined_packets ps) size room)
            ∙ done.1,
        done.2,
      )
    where
      same : b ≡ record b { bytes_available = 0; initial = true }
      same = λ i. record b { bytes_available = idle i; initial = first i }
