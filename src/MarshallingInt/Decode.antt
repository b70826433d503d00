-- ===== src/MarshallingInt/Decode.antt =====
-- What the reading constructor makes of the bytes of a message.
use onwards.Prelude.{
  of_le_one, pos_part, of_le, ℕ, zero, suc, ◌+◌, ◌-◌, ◌/◌, ◌%◌, ◌^◌, ◌<◌, ◌≡◌, refl, sym, List, [],
  ◌∷◌, ◌++◌, arith, length, Width, ℤ, Option, none, some, inl, inr, Bool-cases, ◌==◌, ap, ◌∙◌,
  -ℤ_pos, append_assoc, append-nil,
}
use mathlib.Core.Path.{subst}
use mathlib.Core.List.{append_cancel_right}
use onwards.Failure.{Failure, Run, ok, raised, bind}
use onwards.ReceiveBuffer.{ReceiveBuffer, give_value}
use onwards.ReceiveBuffer.Window.{View, of_view, advance, Reads, give_ok, give_short}
use onwards.MarshallingInt.{read_loop, read}
use onwards.MarshallingInt.Encode.{encoding, decode, decode-encoding_all}

-- What the bytes still to be read come to: a number and the bytes behind it, or an exhausted
-- message, of which everything is read by then.
abbrev pub Decodes : Width → ℤ → View → Option (ℕ × List ℕ) → Run ReceiveBuffer ℕ → Type 0
Decodes w p v none r = (e : Failure) × (r ≡ raised e (of_view w p (advance v.unread [] v)))
Decodes w p v (some (n, rest)) r =
    (xs : List ℕ) × (v.unread ≡ xs ++ rest) × (r ≡ ok n (of_view w p (advance xs rest v)))

one_byte :
    (w : Width) (p : ℤ) (v : View) (a : ℕ) (rest : List ℕ)
    → v.unread ≡ a ∷ rest
    → give_value 1 (of_view w p v) ≡ ok a (of_view w p (advance (a ∷ []) rest v))
unfolding give_value
one_byte w p v a rest e =
    ap (λ t. bind t (λ bs b. ok (of_le bs) b)) (give_ok w p v (a ∷ []) rest e)
    ∙ ap (λ t. ok t (of_view w p (advance (a ∷ []) rest v))) (of_le_one a)

no_byte :
    (w : Width) (p : ℤ) (v : View)
    → v.unread ≡ []
    → (e : Failure) × (give_value 1 (of_view w p v) ≡ raised e (of_view w p v))
unfolding give_value
no_byte w p v e = (
  _,
  ap (λ t. bind t (λ bs b. ok (of_le bs) b)) (give_short w p v 1 (omega (arith, ap length e))),
)

-- What is decoded from the second byte on, seen from the first.
Decodes-cons :
    (w : Width) (p : ℤ) (v : View) (a : ℕ) (rest : List ℕ) (o : Option (ℕ × List ℕ))
    (r : Run ReceiveBuffer ℕ)
    → v.unread ≡ a ∷ rest
    → Decodes w p (advance (a ∷ []) rest v) o r
    → Decodes w p v o r
Decodes-cons w p v a rest none r e (x, q) = (
  x,
  q
      ∙ ap (λ t. raised x (of_view w p (record v { read = t; unread = [] })))
          (append_assoc v.read (a ∷ []) rest ∙ ap (λ t. v.read ++ t) (sym e)),
)
Decodes-cons w p v a rest (some (n, ys)) r e (xs, s, q) = (
  a ∷ xs,
  e ∙ ap (λ t. a ∷ t) s,
  q
      ∙ ap (λ t. ok n (of_view w p (record v { read = t; unread = ys })))
          (append_assoc v.read (a ∷ []) xs),
)

nothing_read :
    (w : Width) (p : ℤ) (v : View) (x : Failure)
    → v.unread ≡ []
    → Path
        (Run ReceiveBuffer ℕ)
        (raised x (of_view w p v))
        (raised x (of_view w p (advance v.unread [] v)))
nothing_read w p v x e = ground (arith, e, append-nil v.read)

-- With a round of fuel for each byte and one more, the loop follows `decode`.
read_loop-Decodes :
    (w : Width) (p : ℤ) (bs : List ℕ) (fuel val shift : ℕ) (v : View)
    → v.unread ≡ bs
    → length bs < fuel
    → Decodes w p v (decode val shift bs) (read_loop fuel val shift (of_view w p v))
unfolding read_loop decode
read_loop-Decodes w p bs zero val shift v e h = absurd (omega arith)
read_loop-Decodes w p [] (suc fuel) val shift v e h =
    let (x, q) = no_byte w p v e in (x, rw q (nothing_read w p v x e))
read_loop-Decodes w p (a ∷ bs) (suc fuel) val shift v e h = elim (Bool-cases (a / 128 % 2 == 0)) [
  | inl last ↦ rw (one_byte w p v a bs e, last) (a ∷ [], e, refl)
  | inr more ↦
      rw (one_byte w p v a bs e, more)
        (Decodes-cons w p v a bs _ _ e
          (read_loop-Decodes w p bs fuel _ _ (advance (a ∷ []) bs v) refl (omega arith)))
]

-- On every message the reading constructor ends without a fault: it returns the number and reads
-- the bytes that the pure decoder takes from the unread bytes, or throws with the message read to
-- its end when the decoder finds no number in them.
pub read_lem :
    (w : Width) (p : ℤ) (v : View)
    → (r : Run ReceiveBuffer ℕ) × Decodes w p v (decode 0 1 v.unread) r
      × (read (of_view w p v) ≡ bind r (λ val b. ok (record { val = val }) b))
unfolding read
read_lem w p v = (
  _,
  read_loop-Decodes w p v.unread (pos_part (of_view w p v).msg_length - length v.read + 1) 0 1 v
      refl (omega arith),
  rw (-ℤ_pos (length v.read + length v.unread) (length v.read) (omega arith)) refl,
)

-- Reading takes back what `marshal` writes, on every 32-bit pattern.
pub read-Reads : (n : ℕ) → n < 2 ^ 32 → Reads read (encoding 4 n) (record { val = n })
read-Reads n h w p v rest e =
    let (r, d, q) = read_lem w p v in
    let found : decode 0 1 v.unread ≡ some (n, rest) =
      ap (decode 0 1) e ∙ decode-encoding_all n rest h in
    let (xs, s, t) = subst (λ o. Decodes w p v o r) found d in
    let same : xs ≡ encoding 4 n = append_cancel_right xs (encoding 4 n) rest (sym s ∙ e) in
    q
    ∙ ap (λ u. bind u (λ val b. ok (record { val = val }) b)) t
    ∙ ap (λ c. ok (record { val = n }) (of_view w p (advance c rest v))) same
