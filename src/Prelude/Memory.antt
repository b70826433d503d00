-- ===== src/Prelude/Memory.antt =====
-- A block of memory as a list of bytes; a read or write outside it is a fault, `none`.
use Prim.Native.Nat.{ℕ, zero, suc, ◌+◌, ◌-◌, ◌*◌, ◌/◌, ◌%◌, ◌^◌, ◌≤◌, ◌<◌}
use mathlib.Core.Path.{◌≡◌, refl, sym, ap, ap₂, ◌∙◌}
use mathlib.Core.List.{List, [], ◌∷◌, ◌++◌, append_assoc}
use mathlib.Core.Option.{Option, none, some}
use native.Mathlib.Nat.{pow-suc}
use native.Mathlib.Omega.{arith}
use onwards.Prelude.Tests.{leb, if◌then◌else◌}
use onwards.Prelude.Lists.{
  length, take, drop, length-append, length-take, length-drop, take-append, drop-append,
  take-append_le, take-append_ge, take-take, drop-take,
}
use onwards.Prelude.Ints.{ℤ, pos, negsuc}

abbrev pub slice : List ℕ → ℕ → ℕ → List ℕ
slice mem a n = take n (drop a mem)

abbrev pub splice : List ℕ → ℕ → List ℕ → List ℕ
splice mem a bs = take a mem ++ (bs ++ drop (a + length bs) mem)

-- memcpy out of a block: `len` bytes from `addr` on.
unfoldable pub load : List ℕ → ℤ → ℤ → Option (List ℕ)
load mem (pos a) (pos n) = if leb (a + n) (length mem) then some (slice mem a n) else none
load mem (pos a) (negsuc n) = none
load mem (negsuc a) n = none

-- memcpy into a block.
unfoldable pub store : List ℕ → ℤ → List ℕ → Option (List ℕ)
store mem (pos a) bs = if leb (a + length bs) (length mem) then some (splice mem a bs) else none
store mem (negsuc a) bs = none

pub load_in :
    (mem : List ℕ) (a n : ℕ) → a + n ≤ length mem → load mem (pos a) (pos n) ≡ some (slice mem a n)
unfolding load
load_in mem a n h = ground arith

pub store_in :
    (mem : List ℕ) (a : ℕ) (bs : List ℕ)
    → a + length bs ≤ length mem
    → store mem (pos a) bs ≡ some (splice mem a bs)
unfolding store
store_in mem a bs h = ground arith

pub length-splice :
    (mem : List ℕ) (a : ℕ) (bs : List ℕ)
    → a + length bs ≤ length mem
    → length (splice mem a bs) ≡ length mem
length-splice mem a bs h = omega (
  arith,
  length-append (take a mem) (bs ++ drop (a + length bs) mem),
  length-append bs (drop (a + length bs) mem),
  length-take a mem,
  length-drop (a + length bs) mem,
)

-- What stands before the place that is written, and what is read back there.
pub take-splice :
    (mem : List ℕ) (a n : ℕ) (bs : List ℕ)
    → a + length bs ≤ length mem
    → n ≤ a
    → take n (splice mem a bs) ≡ take n mem
take-splice mem a n bs h k =
    take-append_le n (take a mem) _ (omega (arith, length-take a mem)) ∙ take-take n a mem k

pub take-splice_past :
    (mem : List ℕ) (a n : ℕ) (bs : List ℕ)
    → a + length bs ≤ length mem
    → n ≡ a + length bs
    → take n (splice mem a bs) ≡ take a mem ++ bs
take-splice_past mem a n bs h e =
    ap (take n) (sym (append_assoc (take a mem) bs (drop (a + length bs) mem)))
    ∙ take-append n (take a mem ++ bs) _
        (omega (arith, length-append (take a mem) bs, length-take a mem))

-- Writing over a part of what stands before `n` splices the part.
pub take-splice_inside :
    (mem : List ℕ) (a n : ℕ) (bs : List ℕ)
    → a + length bs ≤ n
    → n ≤ length mem
    → take n (splice mem a bs) ≡ splice (take n mem) a bs
take-splice_inside mem a n bs h k =
    take-append_ge n (n - a) (take a mem) _ (omega (arith, length-take a mem))
    ∙ ap₂ ◌++◌ (sym (take-take a n mem (omega arith))) rest
  where
    rest : take (n - a) (bs ++ drop (a + length bs) mem) ≡ bs ++ drop (a + length bs) (take n mem)
    rest =
        take-append_ge (n - a) (n - (a + length bs)) bs _ (omega arith)
        ∙ ap (λ t. bs ++ t) (sym (drop-take (a + length bs) n _ mem (omega arith)))

-- Little-endian bytes of an unsigned number, the layout of the machines that run the program.
unfoldable pub le_bytes : ℕ → ℕ → List ℕ
le_bytes zero n = []
le_bytes (suc k) n = (n % 256) ∷ le_bytes k (n / 256)

unfoldable pub of_le : List ℕ → ℕ
of_le [] = 0
of_le (b ∷ bs) = b + 256 * of_le bs

pub length-le_bytes : (k n : ℕ) → length (le_bytes k n) ≡ k
unfolding le_bytes
length-le_bytes zero n = refl
length-le_bytes (suc k) n = ap suc (length-le_bytes k (n / 256))

pub of_le-le_bytes : (k n : ℕ) → n < 256 ^ k → of_le (le_bytes k n) ≡ n
unfolding le_bytes of_le
of_le-le_bytes zero n h = omega arith
of_le-le_bytes (suc k) n h =
    omega (arith, of_le-le_bytes k (n / 256) (omega (arith, pow-suc 256 k)))

pub of_le_one : (a : ℕ) → of_le (a ∷ []) ≡ a
unfolding of_le
of_le_one a = omega arith

-- Writing over the middle part.
pub splice_lem :
    (xs ys zs bs : List ℕ) (a : ℕ)
    → a ≡ length xs
    → length bs ≡ length ys
    → splice (xs ++ (ys ++ zs)) a bs ≡ xs ++ (bs ++ zs)
splice_lem xs ys zs bs a e l = ap₂ ◌++◌ (take-append a xs (ys ++ zs) e) (
    ap (λ t. bs ++ t)
      (ap (drop (a + length bs)) (sym (append_assoc xs ys zs))
        ∙ drop-append (a + length bs) (xs ++ ys) zs (omega (arith, length-append xs ys))))

pub splice_front : (s str : List ℕ) → splice str 0 s ≡ s ++ drop (length s) str
splice_front s str = ap (λ (n : ℕ). s ++ drop n str) (omega arith)

pub le_bytes_one : (n : ℕ) → n < 256 → le_bytes 1 n ≡ n ∷ []
unfolding le_bytes
le_bytes_one n h = ap (λ n. n ∷ []) (omega arith)

abbrev pub zeros : ℕ → List ℕ
zeros zero = []
zeros (suc n) = 0 ∷ zeros n

pub length-zeros : (n : ℕ) → length (zeros n) ≡ n
length-zeros zero = refl
length-zeros (suc n) = omega (arith, length-zeros n)
