-- ===== src/SendBuffer/Space.antt =====
-- The abstract view of a SendBuffer: the messages that are complete, the message in the making, and
-- the free space behind them. Every method is a change of the view.
use onwards.Prelude.{
  splice_lem, ℕ, ◌+◌, ◌≤◌, ◌<◌, ◌≡◌, refl, sym, List, [], ◌∷◌, ◌++◌, ℤ, pos, Width, half_range,
  narrow_pos, +ℤ_pos, -ℤ_pos, load_in, store_in, splice, length, length-append, take, drop,
  take_all, take-append-drop, length-take, length-drop, arith, ap, ◌∙◌, append_assoc,
}
use onwards.Failure.{ok, raised, failure, int}
use onwards.SendBuffer.{SendBuffer, reserve_bytes, copy_in, receive}

pub record View : Type 0 where
  pub done : List ℕ
  pub cur : List ℕ
  pub rest : List ℕ

abbrev pub size : View → ℕ
size v = length v.done + length v.cur + length v.rest

-- The buffer that a view stands for.
abbrev pub of_view : Width → ℤ → View → SendBuffer
of_view w k v = record {
  width = w;
  buf = v.done ++ (v.cur ++ v.rest);
  bufsize = pos (size v);
  saved_size = pos (length v.done);
  index = pos (length v.done + length v.cur);
  sock = k;
}

-- The block is one whose size the type Z can hold.
abbrev pub Fits : Width → View → Type 0
Fits w v = size v < half_range w

pub splice_free :
    (done cur rest bs : List ℕ)
    → length bs ≤ length rest
    → splice (done ++ (cur ++ rest)) (length done + length cur) bs
      ≡ done ++ ((cur ++ bs) ++ drop (length bs) rest)
splice_free done cur rest bs h =
    ap (λ t. splice (done ++ (cur ++ t)) (length done + length cur) bs)
      (sym (take-append-drop (length bs) rest))
    ∙ ap (λ t. splice t (length done + length cur) bs) (sym (append_assoc done cur _))
    ∙ splice_lem (done ++ cur) (take (length bs) rest) (drop (length bs) rest) bs _
        (sym (length-append done cur)) (omega (arith, length-take (length bs) rest))
    ∙ simp append_assoc

-- `copy_in` inside the block.
pub copy_in_lem :
    (b : SendBuffer) (i n : ℕ) (bs : List ℕ)
    → n ≡ length bs
    → i + length bs ≤ length b.buf
    → copy_in (pos i) bs (pos n) b ≡ ok tt (record b { buf = splice b.buf i bs })
unfolding copy_in
copy_in_lem b i n bs e h = rw (
  e,
  load_in bs 0 (length bs) (omega arith),
  take_all (length bs) bs (omega arith),
  store_in b.buf i bs h,
)

module _ (w : Width) (k : ℤ) (v : View) (fits : Fits w v) where
  -- A reservation that fits moves the index; any other throws and changes nothing.
  pub reserve_bytes_ok :
      (n : ℕ)
      → n ≤ length v.rest
      → reserve_bytes (pos n) (of_view w k v)
        ≡ ok
            (pos (length v.done + length v.cur))
            (record (of_view w k v) { index = pos (length v.done + length v.cur + n) })
  unfolding reserve_bytes
  reserve_bytes_ok n h = ground (
    arith,
    -ℤ_pos (size v) (length v.done + length v.cur) (omega arith),
    +ℤ_pos (length v.done + length v.cur) n,
    narrow_pos w (length v.done + length v.cur + n) (omega arith),
  )

  pub reserve_bytes_full :
      (n : ℕ)
      → length v.rest < n
      → reserve_bytes (pos n) (of_view w k v)
        ≡ raised
            (failure "SendBuffer reserveBytes"
              (int (pos n) ∷ int (pos (length v.done + length v.cur)) ∷ []))
            (of_view w k v)
  unfolding reserve_bytes
  reserve_bytes_full n h =
      ground (arith, -ℤ_pos (size v) (length v.done + length v.cur) (omega arith))

  -- On a buffer whose size the index type can hold, receive of bytes that fit in the free space
  -- appends them to the message in the making and changes nothing else.
  pub receive_ok :
      (bs : List ℕ)
      → length bs ≤ length v.rest
      → receive bs (pos (length bs)) (of_view w k v)
        ≡ ok tt (of_view w k (record v { cur = v.cur ++ bs; rest = drop (length bs) v.rest }))
  unfolding receive
  receive_ok bs h =
      rw (narrow_pos w (length bs) (omega arith), reserve_bytes_ok (length bs) h)
        (copy_in_lem _ _ _ bs refl (omega (arith, sizes))
          ∙ ground (
            arith,
            splice_free v.done v.cur v.rest bs h,
            length-append v.cur bs,
            length-drop (length bs) v.rest,
          ))
    where
      sizes : length (v.done ++ (v.cur ++ v.rest)) ≡ size v
      sizes = omega (arith, length-append v.done (v.cur ++ v.rest), length-append v.cur v.rest)

  pub receive_full :
      (n : ℕ) (bs : List ℕ)
      → length v.rest < n
      → n < half_range w
      → receive bs (pos n) (of_view w k v)
        ≡ raised
            (failure "SendBuffer reserveBytes"
              (int (pos n) ∷ int (pos (length v.done + length v.cur)) ∷ []))
            (of_view w k v)
  unfolding receive
  receive_full n bs h small = rw (narrow_pos w n small, reserve_bytes_full n h)
