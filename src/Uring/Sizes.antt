-- ===== src/Uring/Sizes.antt =====
-- The arrays of the ring lie inside the memory that they are given.
use native.Mathlib.Nat.{
  add-mul-div_right, div-eq_of_lt, div-add-mod, mod-lt, le-div_iff_mul-le, div-mul-le_self,
  mul-le-mul_right,
}
use onwards.Prelude.{
  ℕ, ◌+◌, ◌-◌, ◌*◌, ◌/◌, ◌≤◌, ◌<◌, ◌≡◌, Bool, false, arith, if◌then◌else◌, ap, ◌∙◌, some, ◌⊎◌, inl,
  inr, Option-cases,
}
use onwards.Uring.{
  Kernel, Params, placed, refused, kring_size, round_up, clamp_sq, clamp_cq, place,
  uring_alloc_huge, sub_q, chunk3,
}

-- The next multiple: not below the value, and less than one multiple above it.
pub round_up_bounds :
    (val multiple : ℕ)
    → 0 < multiple
    → (val ≤ round_up val multiple) × (round_up val multiple < val + multiple)
unfolding round_up
round_up_bounds val multiple h =
    omega (arith, div-add-mod (val + multiple - 1) multiple, mod-lt (val + multiple - 1) h)

round_up_mono :
    (a b multiple : ℕ) → 0 < multiple → a ≤ b → round_up a multiple ≤ round_up b multiple
unfolding round_up
round_up_mono a b multiple m h =
    mul-le-mul_right multiple
      ((le-div_iff_mul-le m).1 (omega (arith, div-mul-le_self (a + multiple - 1) multiple)))

-- A multiple stays.
round_up_multiple :
    (q multiple : ℕ) → 0 < multiple → round_up (q * multiple) multiple ≡ q * multiple
unfolding round_up
round_up_multiple q multiple h = ap (λ (t : ℕ). t * multiple) quotient
  where
    quotient : (q * multiple + multiple - 1) / multiple ≡ q
    quotient =
        ap (λ (t : ℕ). t / multiple) {y = multiple - 1 + q * multiple} (omega arith)
        ∙ add-mul-div_right (multiple - 1) q h
        ∙ omega (arith, div-eq_of_lt {n = multiple - 1} {m = multiple} (omega arith))

pub place_inside :
    (k : Kernel) (p : Params) (sq cq : ℕ) (null : Bool) (size ring cqes used : ℕ)
    → 0 < k.page
    → place k p sq cq null size ≡ placed ring cqes used
    → (sq * k.sqe ≤ ring) × (ring + kring_size + cqes ≤ used) × (used ≤ size)
unfolding place
place_inside k p sq cq null size ring cqes used h e = ground (
  arith,
  round_up_bounds (sq * k.sqe) k.page h,
  round_up_bounds
      (kring_size + round_up (sq * k.sqe) k.page + cq * k.cqe * (if p.cqe32 then 2 else 1)) k.page
      h,
)

refused-ne-placed : {errno ring cqes used : ℕ} → ¬ (refused errno ≡ placed ring cqes used)
refused-ne-placed h = cc

-- For a positive page size, whenever uring_alloc_huge succeeds, the submission entries end before
-- the ring, and the ring with its completion entries ends within the bytes that it reports as
-- used, which are no more than the buffer has.
pub uring_alloc_huge-inside :
    (k : Kernel) (p : Params) (entries : ℕ) (null : Bool) (size ring cqes used : ℕ)
    → 0 < k.page
    → uring_alloc_huge k p entries null size ≡ placed ring cqes used
    → (sq : ℕ) × (clamp_sq p entries ≡ some sq)
      × (sq * k.sqe ≤ ring)
      × (ring + kring_size + cqes ≤ used)
      × (used ≤ size)
unfolding uring_alloc_huge
uring_alloc_huge-inside k p entries null size ring cqes used h e =
    elim (Option-cases (clamp_sq p entries)) [
      | inl no_sq ↦ absurd (refused-ne-placed (rw (no_sq, uring_alloc_huge) at e))
      | inr (sq, is_sq) ↦ elim (Option-cases (clamp_cq p sq)) [
        | inl no_cq ↦ absurd (refused-ne-placed (rw (is_sq, no_cq, uring_alloc_huge) at e))
        | inr (cq, is_cq) ↦
            let (a, b, c) =
              place_inside k p sq cq null size ring cqes used h
                (rw (is_sq, is_cq, uring_alloc_huge) at e) in
            (sq, is_sq, a, b, c)
      ]
    ]

-- The submission entries, rounded up, leave the rest its place.
entries_fit :
    (k : Kernel)
    → 64 ≤ k.page
    → k.sqe ≡ 64
    → ((q : ℕ) × (sub_q * k.sqe ≡ q * k.page)) ⊎ (sub_q * k.sqe ≤ k.page)
    → kring_size + round_up (sub_q * k.sqe) k.page + 1024 * k.cqe
      ≤ sub_q * (k.sqe + 2 * k.cqe) + k.page
entries_fit k h s (inl (q, e)) =
    omega (arith, e, ap (λ (t : ℕ). round_up t k.page) e ∙ round_up_multiple q k.page (omega arith))
entries_fit k h s (inr below) = omega (
  arith,
  round_up_mono (sub_q * k.sqe) (1 * k.page) k.page (omega arith) (omega arith),
  round_up_multiple 1 k.page (omega arith),
)

-- For submission entries of 64 bytes, a page of 64 bytes or more that divides the memory of all
-- submission entries or holds it, and parameters without a size of the completion queue or wide
-- completion entries, uring_alloc_huge succeeds with the third chunk of the ioUring constructor.
pub chunk3-enough :
    (k : Kernel) (p : Params)
    → 64 ≤ k.page
    → k.sqe ≡ 64
    → p.cqsize ≡ false
    → p.cqe32 ≡ false
    → ((q : ℕ) × (sub_q * k.sqe ≡ q * k.page)) ⊎ (sub_q * k.sqe ≤ k.page)
    → (ring cqes used : ℕ) × (uring_alloc_huge k p sub_q false (chunk3 k) ≡ placed ring cqes used)
unfolding uring_alloc_huge chunk3 clamp_sq clamp_cq place
chunk3-enough k p h s c w page = (
  round_up (sub_q * k.sqe) k.page,
  1024 * k.cqe,
  round_up (kring_size + round_up (sub_q * k.sqe) k.page + 1024 * k.cqe) k.page,
  rw (c, w) (ground (arith, fits)),
)
  where
    fits :
        round_up (kring_size + round_up (sub_q * k.sqe) k.page + 1024 * k.cqe) k.page
        ≤ round_up (sub_q * (k.sqe + 2 * k.cqe) + k.page) k.page
    fits = round_up_mono _ _ k.page (omega arith) (entries_fit k h s page)
