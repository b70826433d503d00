-- ===== src/Uring.antt =====
-- src/tiers/ring_setup.hh: the size of a ring and its entries, over the sizes of the kernel's
-- structures, which are parameters; and the chunk sizes of src/tiers/cmwAmb.cc.
pub mod Sizes
pub mod Slots
pub mod Setup
pub mod Making
use onwards.Prelude.{
  ◌&&◌, ◌||◌, not, ◌^◌, ℕ, zero, suc, ◌+◌, ◌-◌, ◌*◌, ◌/◌, ◌%◌, List, [], ◌∷◌, Bool, true, false,
  ◌==◌, ltb, leb, if◌then◌else◌, Option, none, some,
}

-- The constants of errno.h
abbrev pub einval : ℕ
einval = 22

abbrev pub enomem : ℕ
enomem = 12

-- What the kernel fixes: sizeof(io_uring_sqe), sizeof(io_uring_cqe) and the page size, a power of
-- two, for which `(x+pageSize-1) & ~(pageSize-1)` is the next multiple.
pub record Kernel : Type 0 where
  pub sqe : ℕ
  pub cqe : ℕ
  pub page : ℕ

unfoldable pub round_up : ℕ → ℕ → ℕ
round_up val multiple = (val + multiple - 1) / multiple * multiple

-- The flags and the size that the code reads of io_uring_params
pub record Params : Type 0 where
  pub clamp : Bool
  pub cqsize : Bool
  pub cqe32 : Bool
  pub cq_entries : ℕ

-- The layout that uring_alloc_huge leaves: the offset of the ring behind the submission entries, the
-- bytes of the completion entries, and the bytes that it uses in all; or the negated errno.
pub data Layout : Type 0 where
  placed : (ring_ptr cqes_mem mem_used : ℕ) → Layout
  refused : ℕ → Layout

abbrev pub kern_max_entries : ℕ
kern_max_entries = 32768

abbrev pub kern_max_cq_entries : ℕ
kern_max_cq_entries = 65536

abbrev pub kring_size : ℕ
kring_size = 64

-- The number of submission entries after the first tests
unfoldable pub clamp_sq : Params → ℕ → Option ℕ
clamp_sq p n =
    if n == 0
    then none
    else if ltb kern_max_entries n
    then if p.clamp then some kern_max_entries else none
    else some n

-- The number of completion entries
unfoldable pub clamp_cq : Params → ℕ → Option ℕ
clamp_cq p n =
    let big = ltb kern_max_cq_entries p.cq_entries in
    let m = if big then kern_max_cq_entries else p.cq_entries in
    if p.cqsize
    then if p.cq_entries == 0
      then none
      else if big && not p.clamp
      then none
      else if ltb m n
      then none
      else some m
    else some (2 * n)

-- The part of uring_alloc_huge that places the arrays; `null` says whether `buf` is null.
unfoldable pub place : Kernel → Params → ℕ → ℕ → Bool → ℕ → Layout
place k p sq_entries cq_entries null buf_size =
    let sqes_mem = round_up (sq_entries * k.sqe) k.page in
    let cqes_mem = cq_entries * k.cqe * (if p.cqe32 then 2 else 1) in
    let ring_mem = kring_size + sqes_mem + cqes_mem in
    let mem_used = round_up ring_mem k.page in
    let huge : ℕ = 2 * 1024 * 1024 in
    if null && (ltb huge sqes_mem || ltb huge ring_mem)
    then refused enomem
    else if ltb buf_size mem_used
    then refused enomem
    else placed sqes_mem cqes_mem mem_used

unfoldable pub uring_alloc_huge : Kernel → Params → ℕ → Bool → ℕ → Layout
uring_alloc_huge k p sq_entries null buf_size = elim (clamp_sq p sq_entries) [
  | none ↦ refused einval
  | some sq ↦ elim (clamp_cq p sq) [
    | none ↦ refused einval
    | some cq ↦ place k p sq cq null buf_size
  ]
]

-- The numbers of cmwAmb.cc
abbrev pub sub_q : ℕ
sub_q = 512

abbrev pub max_batch : ℕ
max_batch = 10

abbrev pub num_bufs : ℕ
num_bufs = 4

abbrev pub udp_packet_max : ℕ
udp_packet_max = 1500

unfoldable pub chunk1 : Kernel → ℕ
chunk1 k = round_up (num_bufs * udp_packet_max) k.page

unfoldable pub chunk2 : Kernel → ℕ → ℕ
chunk2 k buf = round_up (num_bufs * buf) k.page

unfoldable pub chunk3 : Kernel → ℕ
chunk3 k = round_up (sub_q * (k.sqe + 2 * k.cqe) + k.page) k.page

-- The submission queue: positions are unsigned ints that wrap, and a mask is a power of two less
-- one, for which `x & mask` is `x % (mask + 1)`.
pub record Sq : Type 0 where
  pub khead : ℕ
  pub sqe_tail : ℕ
  pub ring_entries : ℕ
  pub ring_mask : ℕ

abbrev pub wrap : ℕ → ℕ
wrap n = n % 0x1_0000_0000

abbrev pub unsigned_sub : ℕ → ℕ → ℕ
unsigned_sub a b = (a + 0x1_0000_0000 - b) % 0x1_0000_0000

-- uring_get_sqe: the slot of the new entry, or none when the queue is full. `shift` is that of
-- io_uring_sqe_shift. The slot is cleared by the caller of this function's result.
unfoldable pub uring_get_sqe : ℕ → Sq → Option ℕ × Sq
uring_get_sqe shift sq =
    if leb sq.ring_entries (unsigned_sub sq.sqe_tail sq.khead) then (none, sq) else (
      some (sq.sqe_tail % (sq.ring_mask + 1) * 2 ^ shift),
      record sq { sqe_tail = wrap (sq.sqe_tail + 1) },
    )

-- The completion queue
pub record Cq : Type 0 where
  pub chead : ℕ
  pub ktail : ℕ
  pub cmask : ℕ

unfoldable pub uring_cq_ready : Cq → ℕ
uring_cq_ready cq = unsigned_sub cq.ktail cq.chead

-- The loop of uring_peek_batch_cqe, over the entries that are left
unfoldable pub peek_loop : ℕ → ℕ → ℕ → ℕ → List ℕ
peek_loop shift mask head zero = []
peek_loop shift mask head (suc count) =
    (head % (mask + 1) * 2 ^ shift) ∷ peek_loop shift mask (wrap (head + 1)) count

unfoldable pub uring_peek_batch_cqe : Bool → Cq → ℕ → List ℕ
unfolding uring_cq_ready peek_loop
uring_peek_batch_cqe cqe32 cq count =
    let ready = uring_cq_ready cq in
    peek_loop (if cqe32 then 1 else 0) cq.cmask cq.chead (if ltb ready count then ready else count)
