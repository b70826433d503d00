-- ===== src/Tests/Drafts.antt =====
-- The drafts of experimental at concrete inputs.
use onwards.Prelude.{◌≡◌, refl, [], ◌∷◌, ◌++◌, pos, true, take, of_le, zeros, length-zeros, arith}
use onwards.Failure.{ok, ◌>>=◌}
use onwards.Experimental.{ReceiveBufferFile, up_to, poll}
use onwards.Experimental.Reads.{Delivery}
use onwards.Experimental.Partial.{Arrived}
use onwards.Experimental.Arriving.{poll-Arrived}
use onwards.Experimental.Flushing.{SendBufferFile, flush_until, flush_until_lem}
use onwards.Experimental.Tcp.{ReceiveBufferTcp, bulk_read, drain}
use onwards.Experimental.Batch.{Packet, bulk_read-drain}

-- A packet with three bytes of content, two of which come at a time, and one byte behind it
abbrev delivery : Delivery of_le
unfolding of_le
delivery = record {
  capacity = 16;
  grants = λ k. 1;
  prefix = 7 ∷ 0 ∷ 0 ∷ 0 ∷ [];
  body = 65 ∷ 66 ∷ 67 ∷ [];
  rest = 9 ∷ [];
  four = refl;
  some_body = omega arith;
  sized = refl;
  fits = omega arith;
  small = omega arith;
}

abbrev receiving : ReceiveBufferFile
receiving = record {
  source = record {
    stream = 7 ∷ 0 ∷ 0 ∷ 0 ∷ 65 ∷ 66 ∷ 67 ∷ 9 ∷ [];
    grants = λ k. up_to 2;
    calls = 0;
  };
  rbuf = zeros 16;
  bufsize = 16;
  bytes_available = 0;
  index = 0;
  msg_length = pos 0;
  packet_length = pos 0;
}

poll-Arrived_example :
    (b : ReceiveBufferFile) × (poll of_le 7 receiving ≡ ok true b) × Arrived delivery b
unfolding delivery
poll-Arrived_example = poll-Arrived delivery receiving refl (length-zeros 16) refl refl refl

abbrev sending : SendBufferFile
sending = record { buf = 1 ∷ 2 ∷ 3 ∷ 4 ∷ 5 ∷ []; index = 4; file = 9 ∷ [] }

flush_until_lem_example :
    (b : SendBufferFile) × (flush_until (λ k. 0) 5 sending ≡ ok true b)
    × (b.file ≡ (9 ∷ []) ++ take 4 (1 ∷ 2 ∷ 3 ∷ 4 ∷ 5 ∷ []))
    × (b.index ≡ 0)
flush_until_lem_example = flush_until_lem (λ k. 0) 5 sending (omega arith) (omega arith)

-- Two packets, of which the second has no content
abbrev first_packet : Packet of_le
unfolding of_le
first_packet = record {
  prefix = 2 ∷ 0 ∷ 0 ∷ 0 ∷ [];
  body = 65 ∷ 66 ∷ [];
  four = refl;
  sized = refl;
  small = omega arith;
}

abbrev second_packet : Packet of_le
unfolding of_le
second_packet = record {
  prefix = 0 ∷ 0 ∷ 0 ∷ 0 ∷ [];
  body = [];
  four = refl;
  sized = refl;
  small = omega arith;
}

abbrev tcp : ReceiveBufferTcp
tcp = record {
  rbuf = zeros 16;
  bufsize = 16;
  bytes_available = 0;
  index = 3;
  packet_length = pos 0;
  initial = true;
}

bulk_read-drain_example :
    (b : ReceiveBufferTcp) × ((bulk_read (2 ∷ 0 ∷ 0 ∷ 0 ∷ 65 ∷ 66 ∷ 0 ∷ 0 ∷ 0 ∷ 0 ∷ []) >>= λ _.
    drain of_le 3)
        tcp
      ≡ ok ((65 ∷ 66 ∷ []) ∷ [] ∷ []) b)
    × (b.bytes_available ≡ 0)
unfolding first_packet second_packet
bulk_read-drain_example =
    bulk_read-drain tcp (first_packet ∷ second_packet ∷ []) refl refl (length-zeros 16)
      (omega arith)
