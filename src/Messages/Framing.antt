-- ===== src/Messages/Framing.antt =====
-- A message is added whole, or not at all.
use onwards.Prelude.{
  ℕ, ◌+◌, ◌≤◌, ◌<◌, ◌≡◌, refl, sym, List, [], ◌∷◌, ◌++◌, ℤ, pos, Width, size_of, le_bytes, length,
  length-append, length-take, length-drop, take, drop, take-append-drop, arith, ap, ◌∙◌,
  append_assoc, ◌⊎◌,
}
use native.Mathlib.Decide.{dec_le}
use onwards.Failure.{M, ok, bind, rethrow, failure, int}
use onwards.SendBuffer.{SendBuffer, rollback, get_z, fill_in_size, fill_in_hdr}
use onwards.SendBuffer.Space.{View, of_view, Fits}
use onwards.SendBuffer.Frame.{
  close, fill_in_size_ok, fill_in_size_long, fill_in_hdr_ok, fill_in_hdr_long,
}
use onwards.SendBuffer.Emit.{Emits, Refused-after, Refused-bind}
use onwards.Messages.Room.{
  Unchanged, rolled_back, added, filled, room_size, filled_cur, length_cur, filled_rest,
  filled_fits, content_ok, content-Refused,
}
use onwards.Messages.{marshal_sized, marshal_hdr}

module _ (w : Width) (k : ℤ) (v : View) (fits : Fits w v) (empty : v.cur ≡ []) (max : ℕ)
    {mar : M SendBuffer (Unit {0})} {bs : List ℕ} (content : Emits w mar bs) where
  abbrev after : View
  after = filled w k v fits empty (size_of w) content

  closed : size_of w ≤ length v.rest → close w bs after ≡ added w bs v
  closed h = λ i. record {
    done =
        v.done
        ++ (le_bytes (size_of w) (length_cur w k v fits empty (size_of w) content h i) ++ bs);
    cur = [];
    rest = filled_rest w k v fits empty (size_of w) content h i;
  }

  -- Between two messages of a buffer whose size the index type can hold, with content that is
  -- written as given bytes, a message without an id that fits in the buffer and is no longer than
  -- the maximum is added behind the earlier messages as its length and its content, and the
  -- earlier messages stay.
  pub marshal_sized_ok :
      size_of w + length bs ≤ length v.rest
      → size_of w + length bs ≤ max
      → marshal_sized max mar (of_view w k v) ≡ ok tt (of_view w k (added w bs v))
  unfolding marshal_sized get_z
  marshal_sized_ok h m =
      ap (λ r. rethrow rollback (bind r (λ _. fill_in_size (pos max))))
        (content_ok w k v fits empty (size_of w) content h)
      ∙ ap (rethrow rollback) (
          fill_in_size_ok w k after
            (omega (arith, filled_fits w k v fits empty (size_of w) content h)) max
            (take (size_of w) v.rest) bs (filled_cur w k v fits empty (size_of w) content)
            (room_size w k v fits empty (size_of w) content (omega arith))
            (omega (arith, length_cur w k v fits empty (size_of w) content (omega arith))))
      ∙ ap (λ t. ok tt (of_view w k t)) (closed (omega arith))

  -- Between two messages of a buffer whose size the index type can hold, with content that is
  -- written as given bytes, a message without an id that does not fit in the buffer or is longer
  -- than the maximum is refused with an exception, after which the buffer holds the same
  -- messages, none in the making and as much space as before.
  pub marshal_sized_refused :
      (length v.rest < size_of w + length bs) ⊎ (max < size_of w + length bs)
      → Unchanged w k v (marshal_sized max mar (of_view w k v))
  unfolding marshal_sized get_z
  marshal_sized_refused h =
      rolled_back w k v fits (elim (dec_le (size_of w + length bs) (length v.rest)) [
        | yes room ↦
            let kept = filled_fits w k v fits empty (size_of w) content room in
            let long = length_cur w k v fits empty (size_of w) content (omega arith) in
            Refused-after after refl kept
              (ap (λ r. bind r (λ _. fill_in_size (pos max)))
                (content_ok w k v fits empty (size_of w) content room))
              (record {
                thrown = failure "fillInSize" (int (pos max) ∷ []);
                left = after;
                outcome =
                    fill_in_size_long w k after (omega (arith, kept)) max (omega (arith, long));
                done_kept = refl;
                size_kept = refl;
              })
        | no full ↦
            Refused-bind (fill_in_size (pos max))
              (content-Refused w k v fits empty (size_of w) content (omega arith))
      ])

-- The same with the byte of the id between the length and the content.
module _ (w : Width) (k : ℤ) (v : View) (fits : Fits w v) (empty : v.cur ≡ []) (max id : ℕ)
    {mar : M SendBuffer (Unit {0})} {bs : List ℕ} (content : Emits w mar bs) where
  abbrev after_id : View
  after_id = filled w k v fits empty (size_of w + 1) content

  abbrev old : List ℕ
  old = take (size_of w) (take (size_of w + 1) v.rest)

  abbrev old_id : List ℕ
  old_id = drop (size_of w) (take (size_of w + 1) v.rest)

  parts : after_id.cur ≡ old ++ (old_id ++ bs)
  parts =
      filled_cur w k v fits empty (size_of w + 1) content
      ∙ ap (λ t. t ++ bs) (sym (take-append-drop (size_of w) (take (size_of w + 1) v.rest)))
      ∙ append_assoc old old_id bs

  old_size : size_of w + 1 ≤ length v.rest → length old ≡ size_of w
  old_size h = omega (
    arith,
    length-take (size_of w) (take (size_of w + 1) v.rest),
    length-take (size_of w + 1) v.rest,
  )

  old_id_size : size_of w + 1 ≤ length v.rest → 1 ≡ length old_id
  old_id_size h = omega (
    arith,
    length-drop (size_of w) (take (size_of w + 1) v.rest),
    length-take (size_of w + 1) v.rest,
  )

  count : size_of w + 1 ≤ length v.rest → length after_id.cur ≡ size_of w + length (id ∷ bs)
  count h = omega (arith, length_cur w k v fits empty (size_of w + 1) content h)

  closed_id : size_of w + 1 ≤ length v.rest → close w (id ∷ bs) after_id ≡ added w (id ∷ bs) v
  closed_id h = λ i. record {
    done = v.done ++ (le_bytes (size_of w) (count h i) ++ (id ∷ bs));
    cur = [];
    rest =
        (filled_rest w k v fits empty (size_of w + 1) content h
            ∙ ap (λ (m : ℕ). drop m v.rest) {y = size_of w + length (id ∷ bs)} (omega arith))
          i;
  }

  same_length : size_of w + 1 ≤ length v.rest → length (old ++ (id ∷ bs)) ≡ length after_id.cur
  same_length h = omega (
    arith,
    ap length parts,
    old_id_size h,
    length-append old (id ∷ bs),
    length-append old (old_id ++ bs),
    length-append old_id bs,
  )

  -- Between two messages of a buffer whose size the index type can hold, with content that is
  -- written as given bytes, a message with an id that fits in the buffer and is no longer than
  -- the maximum is added behind the earlier messages as its length, its id and its content, and
  -- the earlier messages stay.
  pub marshal_hdr_ok :
      size_of w + length (id ∷ bs) ≤ length v.rest
      → size_of w + length (id ∷ bs) ≤ max
      → marshal_hdr id max mar (of_view w k v) ≡ ok tt (of_view w k (added w (id ∷ bs) v))
  unfolding marshal_hdr get_z
  marshal_hdr_ok h m =
      ap (λ r. rethrow rollback (bind r (λ _. fill_in_hdr (pos max) (id ∷ []))))
        (content_ok w k v fits empty (size_of w + 1) content (omega arith))
      ∙ ap (rethrow rollback) (
          fill_in_hdr_ok w k after_id max old old_id (id ∷ []) bs
            (omega (arith, filled_fits w k v fits empty (size_of w + 1) content (omega arith)))
            parts (old_size (omega arith)) (old_id_size (omega arith))
            (omega (arith, count (omega arith))))
      ∙ ap (λ t. ok tt (of_view w k t)) (closed_id (omega arith))

  -- Between two messages of a buffer whose size the index type can hold, with content that is
  -- written as given bytes, a message with an id that does not fit in the buffer or is longer
  -- than the maximum is refused with an exception, after which the buffer holds the same
  -- messages, none in the making and as much space as before.
  pub marshal_hdr_refused :
      (length v.rest < size_of w + length (id ∷ bs)) ⊎ (max < size_of w + length (id ∷ bs))
      → Unchanged w k v (marshal_hdr id max mar (of_view w k v))
  unfolding marshal_hdr get_z
  marshal_hdr_refused h =
      rolled_back w k v fits (elim (dec_le (size_of w + 1 + length bs) (length v.rest)) [
        | yes room ↦
            let kept = filled_fits w k v fits empty (size_of w + 1) content room in
            let same = same_length (omega arith) in
            Refused-after after_id refl kept
              (ap (λ r. bind r (λ _. fill_in_hdr (pos max) (id ∷ [])))
                (content_ok w k v fits empty (size_of w + 1) content room))
              (record {
                thrown = failure "fillInSize" (int (pos max) ∷ []);
                left = record after_id { cur = old ++ (id ∷ bs) };
                outcome =
                    fill_in_hdr_long w k after_id max old old_id (id ∷ []) bs (omega (arith, kept))
                      parts (old_size (omega arith)) (old_id_size (omega arith))
                      (omega (arith, count (omega arith)));
                done_kept = refl;
                size_kept = omega (arith, same);
              })
        | no full ↦
            Refused-bind (fill_in_hdr (pos max) (id ∷ []))
              (content-Refused w k v fits empty (size_of w + 1) content (omega arith))
      ])
