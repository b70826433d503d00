-- ===== src/Tests/Tiers.antt =====
-- The middle tier at concrete inputs.
use onwards.Prelude.{
  zeros, List, zero, suc, negsuc, if◌then◌else◌, ◌==◌, some, ℕ, ◌≤◌, ◌≡◌, refl, [], ◌∷◌, pos,
  length, arith, true, none,
}
use onwards.Failure.{ok, raised, fault, Run, Failure}
use onwards.Io.{got, failed}
use onwards.FileBuffer.{bytes}
use onwards.Ambassador.{Op, Amb, CmwRequest, Socky, World, found, nop, recv9, close, missing, empty}
use onwards.Ambassador.Ring.{ring_op, ring_sendto}
use onwards.Ambassador.Login.{Step, going}
use onwards.Ambassador.Loop.{Completion, did_recv, did_recvmsg, on_recv, on_recvmsg}
use onwards.Ambassador.Order.{entries, Prepared, ring_op-order}
use onwards.Ambassador.Replies.{ring_sendto-long}
use onwards.Ambassador.Popping.{Popped, on_recv-Popped}
use onwards.Tests.System.{plain, compressed, letters}

abbrev front_a : Socky
front_a = record { addr = 1; len = 16 }

abbrev front_b : Socky
front_b = record { addr = 2; len = 16 }

abbrev request : Socky → ℕ → CmwRequest
request so fd = record {
  frnt = so;
  bday = pos 5;
  acct_nbr = record { val = 3 };
  path = record { str = []; len = record { val = 0 } };
  mdl_file = [];
  dotfd = fd;
}

abbrev amb : Amb plain
amb = record {
  cmw_buf = compressed;
  submitted = [];
  queued = recv9 ∷ [];
  submissions = negsuc 3 ∷ pos 1 ∷ [];
  sent_bytes = pos 0;
  bufs_used = 0;
  requests = request front_a 7 ∷ request front_b 8 ∷ [];
  prev_time = pos 0;
  s2ind = 0;
  notified = [];
}

abbrev world : World
world = record {
  now = pos 5;
  chdir = λ d. none;
  stat = λ n. missing 2;
  opened = λ n. got 9;
  contents = λ n. bytes [];
  blocks = λ n. [];
  dot = λ n. empty;
  sent = λ so. got 20;
  new_sock = pos 4;
  writes = [];
  registered = true;
  header = none;
  body = none;
}

-- 512 entries wait. A signal interrupts the submission, and then the kernel takes one entry.
abbrev blanks : ℕ → List Op
blanks zero = []
blanks (suc n) = nop ∷ blanks n

abbrev full : Amb plain
full = record amb { queued = blanks 512 }

ring_op-order_example : Prepared (close (pos 7)) (pos 1) full (ring_op (close (pos 7)) full)
ring_op-order_example = ring_op-order (close (pos 7)) 1 (pos 1) [] full (omega arith) (λ e. cc) refl

ring_sendto-long_example :
    (e : Failure) × (s' : Amb plain) × (ring_sendto front_a (letters 1500 ∷ []) amb ≡ raised e s')
    × (entries s' ≡ nop ∷ recv9 ∷ [])
ring_sendto-long_example =
    ring_sendto-long front_a (letters 1500) 1 0 [] amb (omega arith) (omega arith) (omega arith)
      refl

-- The second front tier cannot be reached.
abbrev unreachable : World
unreachable = record world { sent = λ so. if so.addr == 2 then failed 113 else got 22 }

-- The state in which a handler returns
abbrev left_by : Amb plain → Run (Amb plain) Step → Amb plain
left_by s (ok step t) = t
left_by s (raised e t) = s
left_by s fault = s

abbrev reply : Completion
reply = record {
  code = did_recv;
  res = pos 3;
  more = true;
  datagram = none;
  bytes = 1 ∷ 2 ∷ 3 ∷ [];
}

-- The back tier refuses the request with the text "cat".
abbrev replied : Amb plain
replied = record amb {
  cmw_buf = record compressed {
    inp = record (compressed.inp) { rbuf = 9 ∷ 0 ∷ 0 ∷ 0 ∷ 0 ∷ 3 ∷ 99 ∷ 97 ∷ 116 ∷ zeros 15 };
  };
}

abbrev popped : Amb plain
popped = left_by replied (on_recv world reply replied)

-- A datagram with an account number and the path "x/yz"
abbrev asking : Completion
asking = record {
  code = did_recvmsg;
  res = pos 8;
  more = true;
  datagram = some (front_a, 8 ∷ 0 ∷ 3 ∷ 4 ∷ 120 ∷ 47 ∷ 121 ∷ 122 ∷ []);
  bytes = [];
}

-- The middle file is not newer than the last time, and names no other file.
abbrev quiet : World
quiet = record world {
  stat = λ n. found (pos 0) (pos 0);
  blocks = λ n. bytes (45 ∷ 45 ∷ 10 ∷ []) ∷ [];
}

abbrev spacious : Amb plain
spacious = record amb {
  cmw_buf = record compressed {
    sz = 40;
    out = record (compressed.out) {
      buf = zeros 40;
      bufsize = pos 40;
      saved_size = pos 0;
      index = pos 0;
    };
    comp_buf = zeros 450;
  };
}

abbrev joined : Amb plain
joined = left_by spacious (on_recvmsg quiet 10 asking spacious)

popped_ran : on_recv world reply replied ≡ ok going popped
unfolding onwards.Prelude.◌+ℤ◌ onwards.Prelude.◌-ℤ◌ onwards.Prelude.narrow onwards.Prelude.load
    onwards.Prelude.store onwards.Prelude.le_bytes onwards.Prelude.of_le onwards.ReceiveBuffer.give
    onwards.ReceiveBuffer.give_value onwards.ReceiveBuffer.next_message onwards.ReceiveBuffer.update
    onwards.ReceiveBuffer.give_span onwards.ReceiveBuffer.give_bool onwards.MarshallingInt.of_int
    onwards.MarshallingInt.value onwards.MarshallingInt.marshal_loop onwards.MarshallingInt.marshal
    onwards.MarshallingInt.read onwards.MarshallingInt.give_string_view
    onwards.MarshallingInt.receive_all onwards.MarshallingInt.receive_texts onwards.SendBuffer.init
    onwards.SendBuffer.get_z onwards.SendBuffer.receive_at onwards.SendBuffer.fill_in_size
    onwards.SendBuffer.receive_value onwards.Messages.reserve onwards.Messages.marshal_sized
    onwards.Messages.mar_front onwards.Messages.front_marshal onwards.Compressed.decompress
    onwards.Ambassador.on_buf onwards.Ambassador.on_in onwards.Ambassador.Ring.get_sqe
    onwards.Ambassador.Ring.prep onwards.Ambassador.Ring.ring_op
    onwards.Ambassador.Ring.front_message onwards.Ambassador.Ring.next_ind
    onwards.Ambassador.Ring.ring_sendto onwards.Ambassador.Request.destroy
    onwards.Ambassador.Loop.main_round
popped_ran = refl

on_recv-Popped_example : Popped (request front_a 7) (request front_b 8 ∷ []) going popped
on_recv-Popped_example =
    on_recv-Popped world reply (request front_a 7) (request front_b 8 ∷ []) replied popped going
      refl popped_ran

-- The third request is the new one.
three_wait : length joined.requests ≡ 3
unfolding onwards.Prelude.◌+ℤ◌ onwards.Prelude.◌-ℤ◌ onwards.Prelude.narrow onwards.Prelude.load
    onwards.Prelude.store onwards.Prelude.le_bytes onwards.Prelude.of_le onwards.ReceiveBuffer.give
    onwards.ReceiveBuffer.give_value onwards.ReceiveBuffer.next_message onwards.ReceiveBuffer.update
    onwards.MarshallingInt.of_int onwards.MarshallingInt.value onwards.MarshallingInt.marshal_loop
    onwards.MarshallingInt.marshal onwards.MarshallingInt.read onwards.MarshallingInt.receive_text
    onwards.FixedString.take_in onwards.FixedString.receive_from onwards.FixedString.bytes_available
    onwards.SendBuffer.get_z onwards.SendBuffer.receive_at onwards.SendBuffer.fill_in_size
    onwards.SendBuffer.fill_in_hdr onwards.SendBuffer.receive_value onwards.Messages.reserve
    onwards.Compressed.qlz_formula onwards.Compressed.compress onwards.Compressed.out_duo
    onwards.Io.open_file onwards.FileBuffer.getc onwards.FileBuffer.getline_loop
    onwards.FileBuffer.getline onwards.Ambassador.from_run onwards.Ambassador.on_buf
    onwards.Ambassador.on_out onwards.Ambassador.Ring.get_sqe onwards.Ambassador.Ring.prep
    onwards.Ambassador.Ring.ring_op onwards.Ambassador.Ring.ring_send
    onwards.Ambassador.Ring.from_outcome onwards.Ambassador.Request.marshal_files
    onwards.Ambassador.Request.marshal_request onwards.Ambassador.Request.marshal_generate
    onwards.Ambassador.Request.find_files onwards.Ambassador.Request.accept
    onwards.Ambassador.Loop.on_recvmsg
three_wait = refl
