-- ===== src/Experimental/Arriving.antt =====
-- A packet arrives whole, in however many reads it comes.
use onwards.Prelude.{
  ℕ, zero, suc, ◌≤◌, ◌<◌, ◌≡◌, refl, ap, ◌∙◌, List, [], ◌++◌, pos, Bool, true, ◌⊎◌, inl, inr,
  if◌then◌else◌, length, length-append, arith,
}
use native.Mathlib.Decide.{dec_le}
use onwards.Failure.{M, ok, bind}
use onwards.Experimental.{up_to, ReceiveBufferFile, read_header, got_packet_file, poll}
use onwards.Experimental.Reads.{partly, Delivery, packet, total}
use onwards.Experimental.Heading.{Called-same, Called-rethrow, on_header, read_header-Called}
use onwards.Experimental.Partial.{Partial, Called, finished, going, Arrived, read_rest-Called}

module _ {decode : List ℕ → ℕ} (d : Delivery decode) where
  header_known : (b : ReceiveBufferFile) → 4 ≤ b.bytes_available → read_header decode b ≡ ok true b
  unfolding read_header
  header_known b h = ground arith

  got_packet_file-Called :
      (b : ReceiveBufferFile) (got slack more : List ℕ)
      → Partial d b got slack more
      → ((length got < 4) ⊎ (b.packet_length ≡ pos (total d)))
      → Called d (got_packet_file decode (partly b got slack (more ++ d.rest))) (length more)
  unfolding got_packet_file on_header
  got_packet_file-Called b got slack more p k =
      Called-rethrow d (length more) _ (elim (dec_le 4 (length got)) [
        | yes four_here ↦
            Called-same d (length more)
              (ap (λ r. bind r (on_header d))
                (header_known (partly b got slack (more ++ d.rest)) four_here))
              (read_rest-Called d b got slack more p (length_known four_here k))
        | no fewer ↦ read_header-Called d b got slack more p (omega arith)
      ])
    where
      length_known :
          4 ≤ length got
          → (length got < 4) ⊎ (b.packet_length ≡ pos (total d))
          → b.packet_length ≡ pos (total d)
      length_known four_here (inl short) = absurd (omega arith)
      length_known four_here (inr known) = known

  poll_lem :
      (n : ℕ) (b : ReceiveBufferFile) (got slack more : List ℕ)
      → Partial d b got slack more
      → ((length got < 4) ⊎ (b.packet_length ≡ pos (total d)))
      → length more ≤ n
      → (b' : ReceiveBufferFile) × (poll decode n (partly b got slack (more ++ d.rest))
          ≡ ok true b')
        × Arrived d b'
  unfolding poll
  poll_lem zero b got slack more p k h = absurd (omega (arith, p.missing))
  poll_lem (suc n) b got slack more p k h = elim (got_packet_file-Called b got slack more p k) [
    | finished b' e a ↦ (b', ap (λ r. bind r (again n)) e, a)
    | going c got' slack' more' e p' k' l ↦
        let rest_of = poll_lem n c got' slack' more' p' k' (omega arith) in
        (rest_of.0, ap (λ r. bind r (again n)) e ∙ rest_of.1, rest_of.2)
  ]
    where
      again : ℕ → Bool → M ReceiveBufferFile Bool
      again n here = if here then (λ b. ok true b) else poll decode n

  module _ (b : ReceiveBufferFile) (idle : b.bytes_available ≡ 0)
      (size : length b.rbuf ≡ d.capacity) (bound : b.bufsize ≡ d.capacity)
      (coming : b.source.stream ≡ packet d ++ d.rest)
      (granted : b.source.grants ≡ λ k. up_to (suc (d.grants k))) where
    -- A ReceiveBufferFile with no bytes available, to which a packet comes that has content, fits
    -- in its buffer and begins with four bytes that decode to its whole length, below 2 to the
    -- 31, where every read gets at least one byte, has a GotPacket that returns true after at
    -- most as many calls as the packet has bytes, the earlier ones returning false: its block
    -- then begins with the packet, no bytes count as available, and nothing behind the packet has
    -- been read.
    pub poll-Arrived :
        (b' : ReceiveBufferFile) × (poll decode (total d) b ≡ ok true b') × Arrived d b'
    poll-Arrived =
        let found =
          poll_lem (total d) b [] b.rbuf (packet d) start (inl (omega arith))
            (omega (arith, length-append d.prefix d.body, d.four)) in
        (found.0, ap (poll decode (total d)) same ∙ found.1, found.2)
      where
        start : Partial d b [] b.rbuf (packet d)
        start = record {
          whole = refl;
          missing = omega (arith, length-append d.prefix d.body, d.some_body);
          room = omega (arith, size);
          bound = bound;
          granted = granted;
        }

        same : b ≡ partly b [] b.rbuf (packet d ++ d.rest)
        same = λ i. record b {
          source = record (b.source) { stream = coming i };
          bytes_available = idle i;
        }
