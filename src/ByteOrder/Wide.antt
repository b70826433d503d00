-- ===== src/ByteOrder/Wide.antt =====
-- A value of more than four bytes: the shift of a byte, which is an int, is undefined.

use onwards.Prelude.{
  ℕ, zero, suc, ◌+◌, ◌*◌, ◌^◌, ◌≤◌, ◌<◌, ◌≡◌, ◌≢◌, refl, ap, ◌∙◌, List, [], ◌∷◌, ℤ, signed, int32,
  Option, none, some, arith, length, Width, of_le_one, of_le, bit_or,
}
use onwards.Failure.{M, ◌>>=◌, bind, ok, return, access, fault}
use onwards.ReceiveBuffer.{ReceiveBuffer, give_value}
use onwards.ReceiveBuffer.Window.{View, of_view, advance, give_ok}
use onwards.ByteOrder.{
  Order, same_format, least_significant_first, most_significant_first, as_unsigned, shifted,
  add_byte, lsf_loop, read_lsf, msf_loop, read_msf, read_as,
}

access-return :
    {A : Type 0} (o : Option ℕ) (g : ℕ → ℕ) (f : ℕ → M ReceiveBuffer A) (b : ReceiveBuffer)
    → bind (bind (access o b) (λ s. return (g s))) f ≡ bind (access o b) (λ s. f (g s))
access-return none g f b = refl
access-return (some s) g f b = refl

undefined : (k c n : ℕ) → 4 ≤ c → shifted k c n ≡ none
unfolding shifted
undefined k c n h = ground arith

defined : (k c n : ℕ) → c < 4 → shifted k c n ≡ some (as_unsigned k (signed int32 (n * 256 ^ c)))
unfolding shifted
defined k c n h = ground arith

module _ (w : Width) (p : ℤ) where
  next_byte :
      (v : View) (x : ℕ) (rest : List ℕ)
      → v.unread ≡ x ∷ rest
      → give_value 1 (of_view w p v) ≡ ok x (of_view w p (advance (x ∷ []) rest v))
  unfolding give_value
  next_byte v x rest e =
      ap (λ r. bind r (λ bs b. ok (of_le bs) b)) (give_ok w p v (x ∷ []) rest e)
      ∙ ap (λ n. ok n (of_view w p (advance (x ∷ []) rest v))) (of_le_one x)

  -- One round, whose shift is defined or not
  round :
      {A : Type 0}
      → (k c val : ℕ) (f : ℕ → M ReceiveBuffer A) (v : View) (x : ℕ) (rest : List ℕ)
      → v.unread ≡ x ∷ rest
      → (add_byte k c val >>= f) (of_view w p v)
        ≡ bind
            (access (shifted k c x) (of_view w p (advance (x ∷ []) rest v)))
            (λ s. f (bit_or val s))
  round k c val f v x rest e =
      ap (λ r. bind (bind r (λ n. access (shifted k c n) >>= λ s. return (bit_or val s))) f)
        (next_byte v x rest e)
      ∙ access-return (shifted k c x) (bit_or val) f (of_view w p (advance (x ∷ []) rest v))

  stuck :
      {A : Type 0}
      → (k c val : ℕ) (f : ℕ → M ReceiveBuffer A) (v : View) (x : ℕ) (rest : List ℕ)
      → v.unread ≡ x ∷ rest
      → 4 ≤ c
      → (add_byte k c val >>= f) (of_view w p v) ≡ fault
  stuck k c val f v x rest e h =
      round k c val f v x rest e
      ∙ ap (λ o. bind (access o (of_view w p (advance (x ∷ []) rest v))) (λ s. f (bit_or val s)))
          (undefined k c x h)

  lsf_loop-fault :
      (d k left c val : ℕ) (v : View) (bs : List ℕ)
      → v.unread ≡ bs
      → c + d ≡ 4
      → d < left
      → d < length bs
      → lsf_loop k left c val (of_view w p v) ≡ fault
  unfolding lsf_loop
  lsf_loop-fault d k zero c val v bs u e l h = absurd (omega arith)
  lsf_loop-fault d k (suc left) c val v [] u e l h = absurd (omega arith)
  lsf_loop-fault zero k (suc left) c val v (x ∷ rest) u e l h =
      stuck k c val (lsf_loop k left (suc c)) v x rest u (omega arith)
  lsf_loop-fault (suc d) k (suc left) c val v (x ∷ rest) u e l h =
      round k c val (lsf_loop k left (suc c)) v x rest u
      ∙ ap
          (λ o.
            bind (access o (of_view w p (advance (x ∷ []) rest v)))
              (λ s. lsf_loop k left (suc c) (bit_or val s)))
          (defined k c x (omega arith))
      ∙ lsf_loop-fault d k left (suc c) (bit_or val (as_unsigned k (signed int32 (x * 256 ^ c))))
          (advance (x ∷ []) rest v) rest refl (omega arith) (omega arith) (omega arith)

  msf_loop-fault :
      (k c val : ℕ) (v : View) (bs : List ℕ)
      → v.unread ≡ bs
      → 4 < c
      → 0 < length bs
      → msf_loop k c val (of_view w p v) ≡ fault
  unfolding msf_loop
  msf_loop-fault k zero val v bs u l h = absurd (omega arith)
  msf_loop-fault k (suc c) val v [] u l h = absurd (omega arith)
  msf_loop-fault k (suc c) val v (x ∷ rest) u l h =
      stuck k c val (msf_loop k c) v x rest u (omega arith)

-- The two formats that shift bytes reach a shift of an int by 32 bits or more for a value of five
-- or more bytes, whenever the message has five more bytes.
pub read_as-fault :
    (r : Order) (k init : ℕ) (w : Width) (p : ℤ) (v : View)
    → r ≢ same_format
    → 5 ≤ k
    → 5 ≤ length v.unread
    → read_as r k init (of_view w p v) ≡ fault
unfolding read_lsf read_msf
read_as-fault same_format k init w p v other h l = absurd (other refl)
read_as-fault least_significant_first k init w p v other h l =
    lsf_loop-fault w p 4 k k 0 init v v.unread refl refl (omega arith) (omega arith)
read_as-fault most_significant_first k init w p v other h l =
    msf_loop-fault w p k k init v v.unread refl (omega arith) (omega arith)
