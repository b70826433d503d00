-- ===== src/ReceiveBuffer/Window.antt =====
-- The abstract view of a ReceiveBuffer: a message of which a part is read, between the messages
-- before it and what stands behind it in the block. Reading moves bytes from one part to the other.
use mathlib.Core.Path.{subst}
use onwards.Prelude.{
  ◌^◌, le_bytes, le_bytes_one, length-le_bytes, of_le-le_bytes, append-nil, of_le, ℕ, ◌+◌, ◌<◌, ◌≡◌,
  refl, sym, List, [], ◌∷◌, ◌++◌, ℤ, pos, Width, +ℤ_pos, -ℤ_pos, load_in, slice, length,
  length-append, take, drop, take-append, drop-append, arith, ap, ◌∙◌, append_assoc,
}
use onwards.Failure.{M, ◌>>=◌, bind, ok, raised, failure, int}
use onwards.ReceiveBuffer.{ReceiveBuffer, give, give_view, give_value}

pub record View : Type 0 where
  pub before : List ℕ
  pub read : List ℕ
  pub unread : List ℕ
  pub behind : List ℕ

-- The buffer that a view stands for; `p` is the length of the packet.
abbrev pub of_view : Width → ℤ → View → ReceiveBuffer
of_view w p v = record {
  width = w;
  rbuf = v.before ++ (v.read ++ (v.unread ++ v.behind));
  msg_length = pos (length v.read + length v.unread);
  sub_total = pos (length v.before);
  packet_length = p;
  rindex = pos (length v.read);
}

abbrev pub advance : List ℕ → List ℕ → View → View
advance bs rest v = record v { read = v.read ++ bs; unread = rest }

slice_unread :
    (xs ys bs rest zs : List ℕ) (a : ℕ)
    → a ≡ length xs + length ys
    → slice (xs ++ (ys ++ ((bs ++ rest) ++ zs))) a (length bs) ≡ bs
slice_unread xs ys bs rest zs a e =
    ap (λ t. take (length bs) (drop a t)) (sym (append_assoc xs ys ((bs ++ rest) ++ zs)))
    ∙ ap (take (length bs))
        (drop-append a (xs ++ ys) ((bs ++ rest) ++ zs) (omega (arith, length-append xs ys)))
    ∙ ap (take (length bs)) (append_assoc bs rest zs)
    ∙ take-append (length bs) bs (rest ++ zs) refl

module _ (w : Width) (p : ℤ) (v : View) where
  -- Reading the next bytes of the message.
  pub give_ok :
      (bs rest : List ℕ)
      → v.unread ≡ bs ++ rest
      → give (pos (length bs)) (of_view w p v) ≡ ok bs (of_view w p (advance bs rest v))
  unfolding give
  give_ok bs rest e = ground (
    arith,
    -ℤ_pos (length v.read + length v.unread) (length v.read) (omega arith),
    +ℤ_pos (length v.before) (length v.read),
    +ℤ_pos (length v.read) (length bs),
    load_in (v.before ++ (v.read ++ (v.unread ++ v.behind))) (length v.before + length v.read)
        (length bs) (omega (arith, sizes, lengths)),
    found,
    kept,
    lengths,
    length-append v.read bs,
  )
    where
      lengths : length v.unread ≡ length bs + length rest
      lengths = ap length e ∙ length-append bs rest

      sizes :
          length (v.before ++ (v.read ++ (v.unread ++ v.behind)))
          ≡ length v.before + length v.read + length v.unread + length v.behind
      sizes = omega (
        arith,
        length-append v.before (v.read ++ (v.unread ++ v.behind)),
        length-append v.read (v.unread ++ v.behind),
        length-append v.unread v.behind,
      )

      found :
          slice
            (v.before ++ (v.read ++ (v.unread ++ v.behind)))
            (length v.before + length v.read)
            (length bs)
          ≡ bs
      found = rw e (slice_unread v.before v.read bs rest v.behind _ refl)

      kept :
          v.before ++ (v.read ++ (v.unread ++ v.behind))
          ≡ v.before ++ ((v.read ++ bs) ++ (rest ++ v.behind))
      kept = rw e (simp append_assoc)

  -- Past the end of the message every read throws, and the position stays.
  pub give_short :
      (n : ℕ)
      → length v.unread < n
      → give (pos n) (of_view w p v)
        ≡ raised
            (failure "ReceiveBuffer checkLen" (
              int (pos n)
              ∷ int (pos (length v.read + length v.unread))
              ∷ int (pos (length v.read))
              ∷ []))
            (of_view w p v)
  unfolding give
  give_short n h =
      ground (arith, -ℤ_pos (length v.read + length v.unread) (length v.read) (omega arith))

pub give_view-eq-give : (n : ℤ) (b : ReceiveBuffer) → give_view n b ≡ give n b
unfolding give_view give
give_view-eq-give n b = refl

-- The call reads the bytes and returns the value, whatever stands around them.
abbrev pub Reads {ℓ} : {A : Type ℓ} → M ReceiveBuffer A → List ℕ → A → Type ℓ
Reads m bs a =
    (w : Width) (p : ℤ) (v : View) (rest : List ℕ)
    → v.unread ≡ bs ++ rest
    → m (of_view w p v) ≡ ok a (of_view w p (advance bs rest v))

pub return-Reads {ℓ} : {A : Type ℓ} (a : A) → Reads (λ b. ok a b) [] a
return-Reads a w p v rest e =
    λ i. ok a (of_view w p (record v { read = sym (append-nil v.read) i; unread = e i }))

pub >>=-Reads {ℓ κ} :
    {A : Type ℓ} {B : Type κ} (m : M ReceiveBuffer A) (f : A → M ReceiveBuffer B) (xs ys : List ℕ)
    (a : A) (b : B)
    → Reads m xs a
    → Reads (f a) ys b
    → Reads (m >>= f) (xs ++ ys) b
>>=-Reads m f xs ys a b r q w p v rest e =
    ap (λ t. bind t f) (r w p v (ys ++ rest) (e ∙ append_assoc xs ys rest))
    ∙ q w p (advance xs (ys ++ rest) v) rest refl
    ∙ ap (λ t. ok b (of_view w p (record v { read = t; unread = rest })))
        (append_assoc v.read xs ys)

pub give-Reads : (bs : List ℕ) → Reads (give (pos (length bs))) bs bs
give-Reads bs w p v rest e = give_ok w p v bs rest e

pub give_value-Reads : (k n : ℕ) → n < 256 ^ k → Reads (give_value k) (le_bytes k n) n
unfolding give_value
give_value-Reads k n h w p v rest e =
    ap (λ m. bind (give (pos m) (of_view w p v)) (λ bs b. ok (of_le bs) b))
      (sym (length-le_bytes k n))
    ∙ ap (λ t. bind t (λ bs b. ok (of_le bs) b)) (give-Reads (le_bytes k n) w p v rest e)
    ∙ ap (λ t. ok t (of_view w p (advance (le_bytes k n) rest v))) (of_le-le_bytes k n h)

-- A value of one byte
pub give_byte-Reads : (n : ℕ) → n < 256 → Reads (give_value 1) (n ∷ []) n
give_byte-Reads n h =
    subst (λ bs. Reads (give_value 1) bs n) (le_bytes_one n h) (give_value-Reads 1 n h)
