-- ===== src/SendBuffer/Frame.antt =====
-- fillInSize, fillInHdr, rollback and reset on the view of a SendBuffer.
use onwards.Prelude.{
  splice_lem, ℕ, ◌+◌, ◌-◌, ◌≤◌, ◌<◌, ◌≡◌, refl, sym, List, [], ◌∷◌, ◌++◌, ℤ, pos, Width, size_of,
  narrow_pos, bits_of_pos, +ℤ_pos, -ℤ_pos, le_bytes, length-le_bytes, splice, length, length-append,
  arith, ap, ◌∙◌, append_assoc,
}
use onwards.Failure.{ok, raised, failure, int}
use onwards.SendBuffer.{receive_at, fill_in_size, fill_in_hdr, get_z, reset, rollback}
use onwards.SendBuffer.Space.{View, size, of_view, Fits, copy_in_lem}

-- Completing a message: the header gives way to the length of the whole message.
abbrev pub close : Width → List ℕ → View → View
close w body v = record {
  done = v.done ++ (le_bytes (size_of w) (length v.cur) ++ body);
  cur = [];
  rest = v.rest;
}

module _ (w : Width) (k : ℤ) (v : View) (fits : Fits w v) where
  sizes : length (v.done ++ (v.cur ++ v.rest)) ≡ size v
  sizes = omega (arith, length-append v.done (v.cur ++ v.rest), length-append v.cur v.rest)

  -- Writing over a part of the message in the making.
  pub receive_at_lem :
      (front old bs back : List ℕ) (at : ℕ)
      → v.cur ≡ front ++ (old ++ back)
      → length bs ≡ length old
      → at ≡ length v.done + length front
      → receive_at (pos at) bs (of_view w k v)
        ≡ ok tt (of_view w k (record v { cur = front ++ (bs ++ back) }))
  unfolding receive_at
  receive_at_lem front old bs back at e l a =
      copy_in_lem _ at _ bs refl (omega (arith, sizes, lengths))
      ∙ ground (arith, written, lengths', sizes, lengths)
    where
      lengths : length v.cur ≡ length front + length old + length back
      lengths =
          ap length e ∙ omega (arith, length-append front (old ++ back), length-append old back)

      lengths' : length (front ++ (bs ++ back)) ≡ length front + length bs + length back
      lengths' = omega (arith, length-append front (bs ++ back), length-append bs back)

      written :
          splice (v.done ++ (v.cur ++ v.rest)) at bs ≡ v.done ++ ((front ++ (bs ++ back)) ++ v.rest)
      written =
          ap (λ t. splice (v.done ++ (t ++ v.rest)) at bs) e
          ∙ ap (λ t. splice t at bs) (simp append_assoc)
          ∙ splice_lem (v.done ++ front) old (back ++ v.rest) bs at
              (omega (arith, length-append v.done front)) l
          ∙ simp append_assoc

  pub rollback_lem :
      rollback (of_view w k v)
      ≡ of_view w k (record { done = v.done; cur = []; rest = v.cur ++ v.rest })
  unfolding rollback
  rollback_lem = ground (arith, length-append v.cur v.rest)

  pub reset_lem :
      reset (of_view w k v)
      ≡ of_view w k (record { done = []; cur = []; rest = v.done ++ (v.cur ++ v.rest) })
  unfolding reset
  reset_lem = ground (arith, sizes)

  pub fill_in_size_ok :
      (max : ℕ) (old body : List ℕ)
      → v.cur ≡ old ++ body
      → length old ≡ size_of w
      → length v.cur ≤ max
      → fill_in_size (pos max) (of_view w k v) ≡ ok tt (of_view w k (close w body v))
  unfolding fill_in_size get_z
  fill_in_size_ok max old body e l h =
      rw
        (
          -ℤ_pos (length v.done + length v.cur) (length v.done) (omega arith),
          narrow_pos w (length v.done + length v.cur - length v.done) (omega arith),
          bits_of_pos w (length v.done + length v.cur - length v.done) (omega arith),
          count,
        )
        (ground (
          arith,
          receive_at_lem [] old header body (length v.done) e header_size (omega arith),
          append_assoc v.done (header ++ body) v.rest,
          length-append v.done (header ++ body),
          length-append header body,
          length-append old body,
          header_size,
          ap length e,
        ))
    where
      header : List ℕ
      header = le_bytes (size_of w) (length v.cur)

      header_size : length header ≡ length old
      header_size = length-le_bytes (size_of w) (length v.cur) ∙ sym l

      count : length v.done + length v.cur - length v.done ≡ length v.cur
      count = omega arith

  pub fill_in_size_long :
      (max : ℕ)
      → max < length v.cur
      → fill_in_size (pos max) (of_view w k v)
        ≡ raised (failure "fillInSize" (int (pos max) ∷ [])) (of_view w k v)
  unfolding fill_in_size
  fill_in_size_long max h = ground (
    arith,
    -ℤ_pos (length v.done + length v.cur) (length v.done) (omega arith),
    narrow_pos w (length v.done + length v.cur - length v.done) (omega arith),
  )

length_replaced :
    (front old bs back : List ℕ)
    → length bs ≡ length old
    → length (front ++ (bs ++ back)) ≡ length (front ++ (old ++ back))
length_replaced front old bs back e = omega (
  arith,
  length-append front (bs ++ back),
  length-append bs back,
  length-append front (old ++ back),
  length-append old back,
)

-- fillInHdr writes the id behind the room for the size, and then the size.
pub fill_in_hdr_ok :
    (w : Width) (k : ℤ) (v : View) (max : ℕ) (old old_id id body : List ℕ)
    → Fits w v
    → v.cur ≡ old ++ (old_id ++ body)
    → length old ≡ size_of w
    → length id ≡ length old_id
    → length v.cur ≤ max
    → fill_in_hdr (pos max) id (of_view w k v) ≡ ok tt (of_view w k (close w (id ++ body) v))
unfolding fill_in_hdr get_z
fill_in_hdr_ok w k v max old old_id id body fits e l i h =
    rw
      (
        +ℤ_pos (length v.done) (size_of w),
        receive_at_lem w k v fits old old_id id body (length v.done + size_of w) e i (omega arith),
      )
      (fill_in_size_ok w k named (omega (arith, same)) max old (id ++ body) refl l
          (omega (arith, same))
        ∙ ap
            (λ n. ok tt (
              of_view w k (record {
                done = v.done ++ (le_bytes (size_of w) n ++ (id ++ body));
                cur = [];
                rest = v.rest;
              })))
            same)
  where
    named : View
    named = record v { cur = old ++ (id ++ body) }

    same : length (old ++ (id ++ body)) ≡ length v.cur
    same = length_replaced old old_id id body i ∙ sym (ap length e)

pub fill_in_hdr_long :
    (w : Width) (k : ℤ) (v : View) (max : ℕ) (old old_id id body : List ℕ)
    → Fits w v
    → v.cur ≡ old ++ (old_id ++ body)
    → length old ≡ size_of w
    → length id ≡ length old_id
    → max < length v.cur
    → fill_in_hdr (pos max) id (of_view w k v)
      ≡ raised
          (failure "fillInSize" (int (pos max) ∷ []))
          (of_view w k (record v { cur = old ++ (id ++ body) }))
unfolding fill_in_hdr get_z
fill_in_hdr_long w k v max old old_id id body fits e l i h =
    rw
      (
        +ℤ_pos (length v.done) (size_of w),
        receive_at_lem w k v fits old old_id id body (length v.done + size_of w) e i (omega arith),
      )
      (fill_in_size_long w k (record v { cur = old ++ (id ++ body) }) (omega (arith, same)) max
        (omega (arith, same)))
  where
    same : length (old ++ (id ++ body)) ≡ length v.cur
    same = length_replaced old old_id id body i ∙ sym (ap length e)
