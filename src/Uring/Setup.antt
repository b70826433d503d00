-- ===== src/Uring/Setup.antt =====
-- The constructor of ioUring in src/tiers/cmwAmb.cc, with mmapWrapper and uring_setup_ring of
-- src/tiers/ring_setup.hh. An address is a number; what the kernel answers and writes is a parameter.
use onwards.Prelude.{
  ℕ, zero, suc, ◌+◌, ◌-◌, ◌*◌, ◌%◌, bit_or, List, [], ◌∷◌, ℤ, pos, negsuc, false, ◌==◌, ltb_ℤ,
  int32, narrow, Option, none, some, if◌then◌else◌,
}
use onwards.Failure.{M, ◌>>=◌, ◌>>◌, return, raise, int}
use onwards.Io.{Reply, got, failed}
use onwards.Uring.{
  Kernel, Params, Layout, placed, refused, uring_alloc_huge, sub_q, num_bufs, udp_packet_max,
  chunk1, chunk2, chunk3,
}

-- io_sqring_offsets and io_cqring_offsets
pub record SqOffsets : Type 0 where
  pub head : ℕ
  pub tail : ℕ
  pub ring_mask : ℕ
  pub ring_entries : ℕ
  pub flags : ℕ
  pub dropped : ℕ

pub record CqOffsets : Type 0 where
  pub head : ℕ
  pub tail : ℕ
  pub ring_mask : ℕ
  pub ring_entries : ℕ
  pub overflow : ℕ
  pub cqes : ℕ
  pub flags : ℕ

-- What the system answers: `word` is the unsigned int at an address, `tail` that of the buffer ring,
-- `buf` the size of an io_uring_buf, and `registered_ring` the flag IORING_ENTER_REGISTERED_RING.
pub record System : Type 0 where
  pub kernel : Kernel
  pub buf : ℕ
  pub mmap : ℕ → Reply
  pub setup : ℤ
  pub sq_off : SqOffsets
  pub cq_off : CqOffsets
  pub features : ℕ
  pub flags : ℕ
  pub word : ℕ → ℕ
  pub tail : ℕ
  pub register_bufs : ℤ
  pub register_files : ℤ
  pub registered_ring : ℕ

-- io_uring_sq and io_uring_cq: the addresses of what the kernel shares, and what it says once
pub record SqRing : Type 0 where
  pub sqes : ℕ
  pub ring_ptr : ℕ
  pub khead : ℕ
  pub ktail : ℕ
  pub kring_mask : ℕ
  pub kring_entries : ℕ
  pub kflags : ℕ
  pub kdropped : ℕ
  pub ring_mask : ℕ
  pub ring_entries : ℕ

pub record CqRing : Type 0 where
  pub khead : ℕ
  pub ktail : ℕ
  pub kring_mask : ℕ
  pub kring_entries : ℕ
  pub koverflow : ℕ
  pub cqes : ℕ
  pub kflags : Option ℕ
  pub ring_mask : ℕ
  pub ring_entries : ℕ

pub record Rng : Type 0 where
  pub sq : SqRing
  pub cq : CqRing
  pub features : ℕ
  pub flags : ℕ

-- io_uring_buf
pub record Buf : Type 0 where
  pub addr : ℕ
  pub len : ℕ
  pub bid : ℕ

-- ioUring behind its constructor
pub record IoUring : Type 0 where
  pub rng : Rng
  pub enter_ring_fd : ℤ
  pub ring_fd : ℤ
  pub int_flags : ℕ
  pub buf_base : ℕ
  pub buf_ring : ℕ
  pub bufs : ℕ → Option Buf
  pub regfds : List ℤ

unfoldable pub mmap_wrapper : {S : Type 0} → Reply → M S ℕ
mmap_wrapper (got addr) = return addr
mmap_wrapper (failed errno) = raise "mmap" (int (pos errno) ∷ [])

-- uring_setup_ring, on the memory of the submission entries and of the ring behind it
unfoldable pub uring_setup_ring : System → (sqes ring_ptr : ℕ) → Rng
uring_setup_ring w sqes ring_ptr = record {
  sq = record {
    sqes = sqes;
    ring_ptr = ring_ptr;
    khead = ring_ptr + w.sq_off.head;
    ktail = ring_ptr + w.sq_off.tail;
    kring_mask = ring_ptr + w.sq_off.ring_mask;
    kring_entries = ring_ptr + w.sq_off.ring_entries;
    kflags = ring_ptr + w.sq_off.flags;
    kdropped = ring_ptr + w.sq_off.dropped;
    ring_mask = w.word (ring_ptr + w.sq_off.ring_mask);
    ring_entries = w.word (ring_ptr + w.sq_off.ring_entries);
  };
  cq = record {
    khead = ring_ptr + w.cq_off.head;
    ktail = ring_ptr + w.cq_off.tail;
    kring_mask = ring_ptr + w.cq_off.ring_mask;
    kring_entries = ring_ptr + w.cq_off.ring_entries;
    koverflow = ring_ptr + w.cq_off.overflow;
    cqes = ring_ptr + w.cq_off.cqes;
    kflags = if w.cq_off.flags == 0 then none else some (ring_ptr + w.cq_off.flags);
    ring_mask = w.word (ring_ptr + w.cq_off.ring_mask);
    ring_entries = w.word (ring_ptr + w.cq_off.ring_entries);
  };
  features = w.features;
  flags = w.flags;
}

-- The parameters of the constructor: none of the flags that uring_alloc_huge looks at
abbrev pub params : Params
params = record { clamp = false; cqsize = false; cqe32 = false; cq_entries = 0 }

-- `if(rc<0)raise(...)`
abbrev pub unless_negative : {S : Type 0} → M S (Unit {0}) → ℤ → M S (Unit {0})
unless_negative failure rc = if ltb_ℤ rc (pos 0) then failure else return tt

-- What uring_alloc_huge returns, an int
abbrev pub returned : Layout → ℤ
returned (placed ring_ptr cqes_mem mem_used) = narrow int32 (pos mem_used)
returned (refused errno) = negsuc (errno - 1)

abbrev pub ring_place : Layout → ℕ
ring_place (placed ring_ptr cqes_mem mem_used) = ring_ptr
ring_place (refused errno) = 0

-- The loop over the buffers, of which `left` are left, the next being the i-th
unfoldable pub place_bufs : (base tail : ℕ) → (left i : ℕ) → (ℕ → Option Buf) → ℕ → Option Buf
place_bufs base tail zero i bufs = bufs
place_bufs base tail (suc left) i bufs = place_bufs base tail left (i + 1) λ slot.
    if slot == (tail + i) % num_bufs
    then some (record { addr = base + i * udp_packet_max; len = udp_packet_max; bid = i })
    else bufs slot

-- The ring on the mapping at `base`, when every call has succeeded
abbrev pub sqes_at : System → ℕ → ℕ
sqes_at w base = base + chunk1 w.kernel + chunk2 w.kernel w.buf

unfoldable pub made : System → ℤ → ℕ → Layout → IoUring
unfolding uring_setup_ring place_bufs
made w udp_sock base layout = record {
  rng = uring_setup_ring w (sqes_at w base) (sqes_at w base + ring_place layout);
  enter_ring_fd = w.setup;
  ring_fd = negsuc 0;
  int_flags = bit_or (bit_or w.registered_ring 1) 2;
  buf_base = base;
  buf_ring = base + chunk1 w.kernel;
  bufs = place_bufs base w.tail num_bufs 0 (λ slot. none);
  regfds = udp_sock ∷ pos 0 ∷ [];
}

-- The calls of the constructor behind mmapWrapper
unfoldable pub with_layout : {S : Type 0} → System → ℤ → ℕ → Layout → M S IoUring
unfolding made
with_layout w udp_sock base layout =
    unless_negative (raise "alloc_huge" (int (returned layout) ∷ [])) (returned layout)
    >> unless_negative (raise "ioUring" (int w.setup ∷ [])) w.setup
    >> unless_negative (raise "reg buf ring" (int w.register_bufs ∷ [])) w.register_bufs
    >> unless_negative (raise "reg files" (int w.register_files ∷ [])) w.register_files
    >> return (made w udp_sock base layout)

unfoldable pub on_mapping : {S : Type 0} → System → ℤ → ℕ → M S IoUring
unfolding with_layout
on_mapping w udp_sock base =
    with_layout w udp_sock base (uring_alloc_huge w.kernel params sub_q false (chunk3 w.kernel))

unfoldable pub make_ring : {S : Type 0} → System → ℤ → M S IoUring
unfolding mmap_wrapper on_mapping
make_ring w udp_sock =
    mmap_wrapper (w.mmap (chunk1 w.kernel + chunk2 w.kernel w.buf + chunk3 w.kernel))
    >>= on_mapping w udp_sock
