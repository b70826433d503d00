-- ===== src/Uring/Making.antt =====
-- What the constructor of ioUring makes lies in the memory that it mapped, one thing behind the other.
use onwards.Prelude.{
  ℕ, zero, suc, ◌+◌, ◌*◌, ◌%◌, ◌≤◌, ◌<◌, ◌≡◌, ◌≢◌, refl, sym, ap, ◌∙◌, ℤ, pos, false, ◌==◌, ne→==,
  ==_iff, int32, half_range, narrow_pos, Option, none, some, if◌then◌else◌, ◌⊎◌, arith,
}
use native.Mathlib.Decide.{dec_le}
use onwards.Failure.{ok, bind}
use onwards.Io.{got}
use onwards.Uring.{
  Kernel, placed, uring_alloc_huge, clamp_sq, clamp_cq, place, kring_size, sub_q, num_bufs,
  udp_packet_max, chunk1, chunk2, chunk3,
}
use onwards.Uring.Sizes.{round_up_bounds, place_inside, chunk3-enough}
use onwards.Uring.Setup.{
  System, Buf, IoUring, params, place_bufs, uring_setup_ring, made, with_layout, on_mapping,
  make_ring, mmap_wrapper,
}

same-slot : (tail a b : ℕ) → a < 4 → b < 4 → a ≢ b → ((tail + a) % 4 == (tail + b) % 4) ≡ false
same-slot tail a b h i ne = ne→== ((tail + a) % 4) ((tail + b) % 4) (λ e. omega (arith, ne, e))

module _ (base tail : ℕ) where
  abbrev buf_of : ℕ → Buf
  buf_of i = record { addr = base + i * udp_packet_max; len = udp_packet_max; bid = i }

  -- The later rounds leave a place alone.
  kept :
      (left j i : ℕ) (bufs : ℕ → Option Buf)
      → i < j
      → j + left ≤ 4
      → place_bufs base tail left j bufs ((tail + i) % 4) ≡ bufs ((tail + i) % 4)
  unfolding place_bufs
  kept zero j i bufs h l = refl
  kept (suc left) j i bufs h l =
      kept left (j + 1) i _ (omega arith) (omega arith)
      ∙ ap (λ t. if t then some (buf_of j) else bufs ((tail + i) % 4))
          (same-slot tail i j (omega arith) (omega arith) (λ e. omega (arith, e)))

  -- Every buffer gets its place, whatever the tail.
  place_bufs_lem :
      (left j i : ℕ) (bufs : ℕ → Option Buf)
      → j ≤ i
      → i < j + left
      → j + left ≤ 4
      → place_bufs base tail left j bufs ((tail + i) % 4) ≡ some (buf_of i)
  unfolding place_bufs
  place_bufs_lem zero j i bufs h k l = absurd (omega arith)
  place_bufs_lem (suc left) j i bufs h k l = elim (dec_le i j) [
    | yes this ↦
        kept left (j + 1) i _ (omega arith) (omega arith)
        ∙ ap (λ t. if t then some (buf_of j) else bufs ((tail + i) % 4))
            ((==_iff ((tail + i) % 4) ((tail + j) % 4)).1
              (ap (λ (n : ℕ). (tail + n) % 4) {x = i} {y = j} (omega arith)))
        ∙ ap (λ n. some (buf_of n)) {x = j} {y = i} (omega arith)
    | no later ↦ place_bufs_lem left (j + 1) i _ (omega arith) (omega arith) (omega arith)
  ]

-- What the ring is in the memory at `base`, of `total` bytes
pub record LaidOut (w : System) (base total : ℕ) (r : IoUring) : Type 0 where
  pub buffers : (i : ℕ) → i < 4 → r.bufs ((w.tail + i) % 4) ≡ some (buf_of base w.tail i)
  pub before_ring : (i : ℕ) → i < 4 → base + i * udp_packet_max + udp_packet_max ≤ r.buf_ring
  pub ring_room : r.buf_ring + 4 * w.buf ≤ r.rng.sq.sqes
  pub entries_room : r.rng.sq.sqes + 512 * w.kernel.sqe ≤ r.rng.sq.ring_ptr
  pub shared_room : r.rng.sq.ring_ptr + kring_size + 1024 * w.kernel.cqe ≤ base + total

abbrev pub mapped : System → ℕ
mapped w = chunk1 w.kernel + chunk2 w.kernel w.buf + chunk3 w.kernel

-- The memory of the ring for these numbers
place_512 :
    (k : Kernel) (size : ℕ)
    → uring_alloc_huge k params sub_q false size ≡ place k params 512 1024 false size
unfolding uring_alloc_huge clamp_sq clamp_cq
place_512 k size = refl

place_cqes :
    (k : Kernel) (size ring cqes used : ℕ)
    → place k params 512 1024 false size ≡ placed ring cqes used
    → cqes ≡ 1024 * k.cqe
unfolding place
place_cqes k size ring cqes used e = ground arith

-- The calls succeed.
with_layout_ok :
    {S : Type 0} (w : System) (s : ℤ) (base fd a b ring cqes used : ℕ) (state : S)
    → used < half_range int32
    → w.setup ≡ pos fd
    → w.register_bufs ≡ pos a
    → w.register_files ≡ pos b
    → with_layout w s base (placed ring cqes used) state
      ≡ ok (made w s base (placed ring cqes used)) state
unfolding with_layout
with_layout_ok w s base fd a b ring cqes used state small set bufs files =
    rw (narrow_pos int32 used small, set, bufs, files) (ground arith)

-- For submission entries of 64 bytes, a page of 64 bytes or more that divides the memory of all
-- submission entries or holds it, and a third chunk below 2 to the 31, if mmap, io_uring_setup
-- and both registrations succeed, the constructor of ioUring returns a ring whose four packet
-- buffers of 1500 bytes, each of them in its own place of the buffer ring whatever the tail, end
-- before that buffer ring, which ends before the 512 submission entries, which end before the
-- shared ring, which ends, with 1024 completion entries, within the mapped memory.
pub make_ring-LaidOut :
    {S : Type 0} (w : System) (s : ℤ) (base fd a b : ℕ) (state : S)
    → 64 ≤ w.kernel.page
    → w.kernel.sqe ≡ 64
    → ((q : ℕ) × (sub_q * w.kernel.sqe ≡ q * w.kernel.page))
      ⊎ (sub_q * w.kernel.sqe ≤ w.kernel.page)
    → chunk3 w.kernel < half_range int32
    → w.mmap (mapped w) ≡ got base
    → w.setup ≡ pos fd
    → w.register_bufs ≡ pos a
    → w.register_files ≡ pos b
    → (r : IoUring) × (make_ring w s state ≡ ok r state) × LaidOut w base (mapped w) r
unfolding make_ring on_mapping mmap_wrapper made uring_setup_ring chunk1 chunk2
make_ring-LaidOut w s base fd a b state page sqe divides small map_ok set bufs files =
    let (ring, cqes, used, layout) = chunk3-enough w.kernel params page sqe refl refl divides in
    let (entries, ring_fits, used_fits) =
      place_inside w.kernel params 512 1024 false (chunk3 w.kernel) ring cqes used (omega arith)
        (sym (place_512 w.kernel (chunk3 w.kernel)) ∙ layout) in
    (
      made w s base (placed ring cqes used),
      ap (λ r. bind (mmap_wrapper r state) (on_mapping w s)) map_ok
          ∙ ap (λ l. with_layout w s base l state) layout
          ∙ with_layout_ok w s base fd a b ring cqes used state (omega arith) set bufs files,
      record {
        buffers = λ i h.
            place_bufs_lem base w.tail 4 0 i (λ slot. none) (omega arith) (omega arith)
              (omega arith);
        before_ring = λ i h.
            omega
              (arith, (round_up_bounds (num_bufs * udp_packet_max) w.kernel.page (omega arith)).0);
        ring_room =
            omega (arith, (round_up_bounds (num_bufs * w.buf) w.kernel.page (omega arith)).0);
        entries_room = omega arith;
        shared_room = omega (
          arith,
          used_fits,
          ring_fits,
          place_cqes w.kernel (chunk3 w.kernel) ring cqes used
              (sym (place_512 w.kernel (chunk3 w.kernel)) ∙ layout),
        );
      },
    )
