-- ===== src/MarshallingInt/Encode.antt =====
-- What `marshal` writes, in plain arithmetic, and that reading takes it back.
use onwards.Prelude.{
  ℕ, zero, suc, ◌+◌, ◌-◌, ◌*◌, ◌/◌, ◌%◌, ◌^◌, ◌≤◌, ◌<◌, ◌≡◌, List, [], ◌∷◌, ◌++◌, ltb, arith,
  length, Width, if◌then◌else◌, Option, none, some, half_range, ◌==◌, true, false, ap, ◌∙◌,
}
use onwards.SendBuffer.Emit.{Emits, >>-Emits, receive_value-Emits}
use native.Mathlib.Decide.{dec_lt}
use onwards.MarshallingInt.{MarshallingInt, marshal_loop, marshal}

-- The bytes of `n`, for `n` below the bound of `k + 1` groups.
unfoldable pub encoding : ℕ → ℕ → List ℕ
encoding zero n = n ∷ []
encoding (suc k) n =
    let more = encoding k (n / 128 - 1) in if ltb n 128 then n ∷ [] else (n % 128 + 128) ∷ more

-- The first number that takes more than `k` bytes: 128, 16512, 2113664, 270549120, …
abbrev pub bound : ℕ → ℕ
bound zero = 0
bound (suc k) = 128 * (bound k + 1)

one_byte : (w : Width) (b : ℕ) → length (b ∷ []) < half_range w
one_byte w b = grind arith

last_group : (n : ℕ) → n < 128 → (n % 128 ≡ n) × ((n / 128 == 0) ≡ true) × (ltb n 128 ≡ true)
last_group n h = ground arith

inner_group : (n : ℕ) → 128 ≤ n → ((n / 128 == 0) ≡ false) × (ltb n 128 ≡ false)
inner_group n h = ground arith

marshal_loop-Emits :
    (w : Width) (k n : ℕ) → n < bound (suc k) → Emits w (marshal_loop (suc k) n) (encoding k n)
unfolding marshal_loop encoding
marshal_loop-Emits w zero n h =
    let (same, test, _) = last_group n (omega arith) in
    rw (test, same) (receive_value-Emits w (n ∷ []) (one_byte w n))
marshal_loop-Emits w (suc k) n h = elim (dec_lt n 128) [
  | yes small ↦
      let (same, test, test') = last_group n small in
      rw (test, test', same) (receive_value-Emits w (n ∷ []) (one_byte w n))
  | no large ↦
      let (test, test') = inner_group n (omega arith) in
      rw (test, test')
        (>>-Emits w (receive_value-Emits w ((n % 128 + 128) ∷ []) (one_byte w (n % 128 + 128)))
          (marshal_loop-Emits w k (n / 128 - 1) (omega arith)))
]

-- On every buffer `marshal` writes the encoding of the number, or throws for want of space.
pub marshal-Emits :
    (w : Width) (m : MarshallingInt) → m.val < 2 ^ 32 → Emits w (marshal m) (encoding 4 m.val)
unfolding marshal
marshal-Emits w m h = marshal_loop-Emits w 4 m.val (omega arith)

-- The reading loop on a sequence of bytes: `none` stands for an exhausted sequence.
unfoldable pub decode : ℕ → ℕ → List ℕ → Option (ℕ × List ℕ)
decode val shift [] = none
decode val shift (a ∷ rest) =
    let val' = (val + a % 128 * shift) % 2 ^ 32 in
    let shift' = shift * 128 % 2 ^ 32 in
    let more = decode ((val' + shift') % 2 ^ 32) shift' rest in
    if a / 128 % 2 == 0 then some (val', rest) else more

-- The lowest group, and the rest as the next byte counts it: from one more.
split_groups :
    (n shift : ℕ)
    → 128 ≤ n
    → n * shift ≡ n % 128 * shift + shift * 128 + (n / 128 - 1) * (shift * 128)
split_groups n shift h = ap (λ (t : ℕ). t * shift) whole ∙ omega arith
  where
    whole : n ≡ n % 128 + 128 + (n / 128 - 1) * 128
    whole = omega arith

-- Reading takes an encoding back. `n` is what is still to be read, counted in units of `shift`.
decode-encoding :
    (k n val shift : ℕ) (rest : List ℕ)
    → n < bound (suc k)
    → val + n * shift < 2 ^ 32
    → decode val shift (encoding k n ++ rest) ≡ some (val + n * shift, rest)
unfolding encoding decode
decode-encoding zero n val shift rest h fits = ground arith
decode-encoding (suc k) n val shift rest h fits = elim (dec_lt n 128) [
  | yes small ↦ ground arith
  | no large ↦ ground (
    arith,
    split_groups n shift (omega arith),
    decode-encoding k (n / 128 - 1) (val + n % 128 * shift + shift * 128) (shift * 128) rest,
  )
]

-- `marshal` and the reading loop are inverse on every 32-bit pattern, whatever follows.
pub decode-encoding_all :
    (n : ℕ) (rest : List ℕ) → n < 2 ^ 32 → decode 0 1 (encoding 4 n ++ rest) ≡ some (n, rest)
decode-encoding_all n rest h = ground (arith, decode-encoding 4 n 0 1 rest)

-- An encoding takes one byte up to the first bound, and one more from each bound on.
pub length-encoding : (k n : ℕ) → (1 ≤ length (encoding k n)) × (length (encoding k n) ≤ suc k)
unfolding encoding
length-encoding zero n = omega arith
length-encoding (suc k) n = ground (arith, length-encoding k (n / 128 - 1))
