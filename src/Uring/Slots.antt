-- ===== src/Uring/Slots.antt =====
-- The entries that the submission queue hands out, across the wrap of its positions.
use Prim.Native.Nat.{◌∣◌}
use native.Mathlib.Nat.{
  mod-add-mod, mod-eq_of_lt, mod-eq-sub-mod, mod-mod_of_dvd, mod-lt, eq_of_mul-eq-mul_right,
}
use native.Mathlib.Decide.{dec_lt}
use onwards.Prelude.{
  ℕ, zero, suc, ◌+◌, ◌-◌, ◌*◌, ◌%◌, ◌^◌, ◌<◌, ◌≡◌, ◌≢◌, sym, ◌∙◌, ap, arith, some,
}
use onwards.Uring.{Sq, wrap, unsigned_sub, uring_get_sqe}

-- The place in the array of a position
abbrev pub slot : ℕ → ℕ → ℕ → ℕ
slot shift mask position = position % (mask + 1) * 2 ^ shift

abbrev pub pending : Sq → ℕ
pending sq = unsigned_sub sq.sqe_tail sq.khead

-- Fewer steps than the modulus do not come back to the start.
mod-add-ne : (a d e : ℕ) → 0 < d → d < e → (a + d) % e ≢ a % e
mod-add-ne a d e lo hi h = elim (dec_lt (a % e + d) e) [
  | yes inside ↦ omega (arith, mod-add-mod a e d, mod-eq_of_lt inside, h)
  | no round ↦ omega (
    arith,
    h,
    mod-add-mod a e d,
    mod-lt a {m = e} (omega arith),
    mod-eq-sub-mod {n = a % e + d} {m = e} (omega arith),
    mod-eq_of_lt {n = a % e + d - e} {m = e} (omega (arith, mod-lt a {m = e} (omega arith))),
  )
]

-- The tail is as far from the head as entries are pending.
tail_lem :
    (sq : Sq)
    → sq.khead < 0x1_0000_0000
    → sq.sqe_tail < 0x1_0000_0000
    → wrap (sq.khead + pending sq) ≡ sq.sqe_tail
tail_lem sq h t = omega arith

pow_positive : (n : ℕ) → 0 < 2 ^ n
pow_positive zero = omega arith
pow_positive (suc n) = omega (arith, pow_positive n)

same_slot : (shift a b : ℕ) → a * 2 ^ shift ≡ b * 2 ^ shift → a ≡ b
same_slot shift a b h = eq_of_mul-eq-mul_right (2 ^ shift) (pow_positive shift) a b h

handed_out :
    (shift new : ℕ) (sq : Sq)
    → (uring_get_sqe shift sq).0 ≡ some new
    → (pending sq < sq.ring_entries) × (slot shift sq.ring_mask sq.sqe_tail ≡ new)
unfolding uring_get_sqe
handed_out shift new sq e = ground arith

-- If the mask is one less than the number of entries, which divides 2 to the 32, and the
-- positions are below 2 to the 32, then an entry that uring_get_sqe hands out is none of those
-- that are pending between head and tail, also where the positions wrap.
pub uring_get_sqe-fresh :
    (shift j new : ℕ) (sq : Sq)
    → sq.ring_mask + 1 ∣ 0x1_0000_0000
    → sq.ring_entries ≡ sq.ring_mask + 1
    → sq.khead < 0x1_0000_0000
    → sq.sqe_tail < 0x1_0000_0000
    → (uring_get_sqe shift sq).0 ≡ some new
    → j < pending sq
    → slot shift sq.ring_mask (wrap (sq.khead + j)) ≢ new
uring_get_sqe-fresh shift j new sq divides entries head tail e h same =
    let (room, at) = handed_out shift new sq e in
    mod-add-ne (sq.khead + j) (pending sq - j) (sq.ring_mask + 1) (omega arith)
      (omega (arith, room, entries)) meets
  where
    meets :
        (sq.khead + j + (pending sq - j)) % (sq.ring_mask + 1) ≡ (sq.khead + j) % (sq.ring_mask + 1)
    meets =
        ap (λ (t : ℕ). t % (sq.ring_mask + 1)) {y = sq.khead + pending sq} (omega (arith, h))
        ∙ sym (mod-mod_of_dvd (sq.ring_mask + 1) (sq.khead + pending sq) divides)
        ∙ ap (λ (t : ℕ). t % (sq.ring_mask + 1)) (tail_lem sq head tail)
        ∙ sym (same_slot shift _ _ (same ∙ sym ((handed_out shift new sq e).1)))
        ∙ mod-mod_of_dvd (sq.ring_mask + 1) (sq.khead + j) divides
