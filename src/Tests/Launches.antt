-- ===== src/Tests/Launches.antt =====
-- The making of the ring, and the client for Java, at concrete inputs.
use onwards.Prelude.{none, ◌≡◌, refl, inl, [], ◌∷◌, pos, negsuc, zeros, arith}
use onwards.Failure.{ok}
use onwards.Io.{got}
use onwards.Sockets.{Addrinfo, addresses}
use onwards.Uring.{chunk3, round_up}
use onwards.Uring.Setup.{System, IoUring, make_ring}
use onwards.Uring.Making.{LaidOut, mapped, make_ring-LaidOut}
use onwards.Client.{Net, not_received, genz_main}
use onwards.Client.Ends.{to_server}
use onwards.Client.Jni.{Lookup, genz_main_jni, genz_main_jni-genz_main}

-- Pages of 4096 bytes, and buffers of which the kernel has taken three
abbrev system : System
system = record {
  kernel = record { sqe = 64; cqe = 16; page = 4096 };
  buf = 16;
  mmap = λ n. got 0x10_0000;
  setup = pos 5;
  sq_off = record {
    head = 0;
    tail = 4;
    ring_mask = 16;
    ring_entries = 24;
    flags = 36;
    dropped = 32;
  };
  cq_off = record {
    head = 8;
    tail = 12;
    ring_mask = 20;
    ring_entries = 28;
    overflow = 44;
    cqes = 64;
    flags = 40;
  };
  features = 0;
  flags = 0;
  word = λ a. 511;
  tail = 3;
  register_bufs = pos 0;
  register_files = pos 0;
  registered_ring = 16;
}

make_ring-LaidOut_example :
    (r : IoUring) × (make_ring system (pos 4) tt ≡ ok r tt)
    × LaidOut system 0x10_0000 (mapped system) r
unfolding chunk3 round_up
make_ring-LaidOut_example =
    make_ring-LaidOut system (pos 4) 0x10_0000 5 0 0 tt (omega arith) refl (inl (8, refl))
      (omega arith) refl refl refl refl

abbrev no_socket : Addrinfo
no_socket = record { family = 10; socktype = 2; address = [] }

abbrev here : Addrinfo
here = record { family = 2; socktype = 2; address = 127 ∷ 0 ∷ 0 ∷ 1 ∷ [] }

abbrev lookup : Lookup
lookup = record {
  resolved = λ node p. addresses (no_socket ∷ here ∷ []);
  socket = λ a. elim (a.address) [ [] ↦ negsuc 0 | x ∷ xs ↦ pos 4 ];
  at = λ a. to_server [] (a.address);
}

abbrev local_net : Net
local_net = record {
  socket = pos 4;
  pton = λ node. (pos 1, 127 ∷ 0 ∷ 0 ∷ 1 ∷ []);
  sent = λ tm. got 7;
  timeout = λ tm. none;
  received = λ tm. not_received 11;
}

genz_main_jni-genz_main_example :
    genz_main_jni local_net lookup (zeros 1500) ([] ∷ (55 ∷ []) ∷ (102 ∷ 111 ∷ []) ∷ [])
    ≡ genz_main local_net (zeros 1500) ([] ∷ (55 ∷ []) ∷ (102 ∷ 111 ∷ []) ∷ [])
genz_main_jni-genz_main_example =
    genz_main_jni-genz_main local_net lookup (zeros 1500) [] (55 ∷ []) (102 ∷ 111 ∷ []) []
      (127 ∷ 0 ∷ 0 ∷ 1 ∷ []) (no_socket ∷ []) here [] 4 (omega arith) refl refl refl (refl, tt) refl
      refl
