-- ===== src/Tests/System.antt =====
-- Files, sockets, the compressor and the rings at concrete inputs.
use onwards.Prelude.{
  ℕ, zero, suc, ◌+◌, ◌≡◌, ◌≢◌, refl, List, [], ◌∷◌, ◌++◌, pos, negsuc, int32, length, arith, true,
  false, some, ◌⊎◌,
}
use onwards.Failure.{ok}
use onwards.Io.{Reply, got, failed, returned, write_all}
use onwards.Io.Writing.{write_all_lem, write_all_ends}
use onwards.FileBuffer.{FileBuffer, bytes, getline}
use onwards.FileBuffer.Lines.{Readable, Plain, stream, getline_lem}
use onwards.SendBuffer
use onwards.Compressed.{Quicklz, Bounded, qlz_formula, BufferCompressed, compress}
use onwards.Compressed.Zone.{zone_of, compress_ok}
use native.Mathlib.Nat.{dvd-mul_right}
use onwards.Uring.Slots.{slot, uring_get_sqe-fresh}
use onwards.Uring.{
  Sq, wrap, uring_get_sqe, Kernel, Params, placed, uring_alloc_huge, clamp_sq, clamp_cq, place,
  round_up,
}

-- A write that is cut short, interrupted, and then done.
abbrev replies : List Reply
replies = got 1 ∷ failed 4 ∷ got 2 ∷ []

write_all_lem_example :
    (left : List ℕ) × (7 ∷ 8 ∷ 9 ∷ [] ≡ (write_all true (7 ∷ 8 ∷ 9 ∷ []) replies).0 ++ left)
    × ((left ≡ []) ⊎ ((write_all true (7 ∷ 8 ∷ 9 ∷ []) replies).1 ≢ returned tt))
write_all_lem_example = write_all_lem true (7 ∷ 8 ∷ 9 ∷ []) replies (omega arith, (omega arith, tt))

write_all_ends_example :
    (write_all true (7 ∷ 8 ∷ []) (got 1 ∷ failed 4 ∷ got 1 ∷ [])).1 ≡ returned tt
write_all_ends_example =
    write_all_ends true (7 ∷ 8 ∷ []) (got 1 ∷ failed 4 ∷ got 1 ∷ [])
      (omega arith, (omega arith, tt)) (omega arith, (refl, (omega arith, tt))) (omega arith)
      (omega arith)

-- The line `ab` in two blocks.
abbrev two_blocks : FileBuffer
two_blocks = record { ahead = []; coming = bytes (97 ∷ []) ∷ bytes (98 ∷ 10 ∷ 99 ∷ []) ∷ [] }

getline_lem_example :
    (g : FileBuffer) × (getline 10 two_blocks ≡ ok (97 ∷ 98 ∷ []) g)
    × (stream g ≡ 99 ∷ [])
    × Readable g.coming
getline_lem_example =
    getline_lem 10 (97 ∷ 98 ∷ []) (99 ∷ []) two_blocks (λ e. cc, (λ e. cc, tt))
      (omega arith, omega arith, (omega arith, omega arith, tt)) refl (omega arith)

abbrev pub letters : ℕ → List ℕ
letters zero = []
letters (suc n) = 97 ∷ letters n

letters-Plain : (n : ℕ) → Plain 10 (letters n)
letters-Plain zero = tt
letters-Plain (suc n) = (omega arith, omega arith, letters-Plain n)

-- A line that does not end in time.
abbrev long : List ℕ
long = letters 120

-- A compressor that writes one byte before its content.
abbrev pub plain : Quicklz
plain = record {
  Comp = Unit;
  Decomp = Unit;
  new_comp = tt;
  new_decomp = tt;
  compress = λ src c. (1 ∷ src, c);
  size_compressed = λ src. length src;
  size_decompressed = λ src. length src;
  decompress = λ src d. (src, d);
}

abbrev bytes_of : ℕ → List ℕ
bytes_of zero = []
bytes_of (suc n) = 0 ∷ bytes_of n

abbrev pub compressed : BufferCompressed plain
compressed = record {
  sz = 4;
  out = record {
    width = int32;
    buf = 5 ∷ 6 ∷ [];
    bufsize = pos 2;
    saved_size = pos 2;
    index = pos 2;
    sock = negsuc 0;
  };
  inp = record {
    width = int32;
    rbuf = [];
    msg_length = pos 0;
    sub_total = pos 0;
    packet_length = pos 0;
    rindex = pos 0;
  };
  comp = tt;
  decomp = tt;
  comp_buf = [];
  comp_index = pos 0;
  bytes_sent = pos 0;
  compressed_start = pos 0;
}

plain-Bounded : Bounded plain
plain-Bounded src c = omega arith

compress_ok_example :
    compress plain (zone_of plain compressed [] (8 ∷ []) (bytes_of 403))
    ≡ ok tt (record (zone_of plain compressed [] (8 ∷ 1 ∷ 5 ∷ 6 ∷ []) (bytes_of 400)) {
      out = SendBuffer.reset (compressed.out);
    })
unfolding qlz_formula
compress_ok_example =
    compress_ok plain compressed [] (8 ∷ []) (bytes_of 403) 2 plain-Bounded refl (omega arith) refl
      (omega arith)

-- A page of 4096 bytes
abbrev linux : Kernel
linux = record { sqe = 64; cqe = 16; page = 4096 }

abbrev default : Params
default = record { clamp = false; cqsize = false; cqe32 = false; cq_entries = 0 }

placed_once : uring_alloc_huge linux default 512 false 57344 ≡ placed 32768 16384 53248
unfolding uring_alloc_huge clamp_sq clamp_cq place round_up
placed_once = refl

-- Two entries are pending across the wrap: the last position and the first.
abbrev wrapped : Sq
wrapped = record { khead = 0xffff_ffff; sqe_tail = 1; ring_entries = 4; ring_mask = 3 }

handed_out_one : (uring_get_sqe 0 wrapped).0 ≡ some 1
unfolding uring_get_sqe
handed_out_one = refl

uring_get_sqe-fresh_example : slot 0 3 (wrap (0xffff_ffff + 1)) ≢ 1
uring_get_sqe-fresh_example =
    uring_get_sqe-fresh 0 1 1 wrapped (dvd-mul_right 4 0x4000_0000) refl (omega arith) (omega arith)
      handed_out_one (omega arith)
