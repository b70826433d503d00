-- ===== src/Complex/Collection.antt =====
-- A collection is written as the number of the segments that have objects, and those segments.
use onwards.Prelude.{
  ℕ, suc, ◌+◌, ◌%◌, ◌≤◌, ◌<◌, ◌≡◌, refl, sym, List, [], ◌∷◌, ◌++◌, ℤ, pos, Bool, true, false,
  if◌then◌else◌, Width, length, length-take, length-drop, take, drop-drop, arith, ap, ◌∙◌,
  append_assoc,
}
use native.Mathlib.Decide.{dec_le}
use onwards.Failure.{M, Run, ok, raised, fault, bind, ◌>>◌, ◌>>=◌, return}
use onwards.SendBuffer.{SendBuffer, receive_value, reserve_bytes, receive_at}
use onwards.SendBuffer.Space.{View, size, of_view, Fits, reserve_bytes_ok, reserve_bytes_full}
use onwards.SendBuffer.Frame.{receive_at_lem}
use onwards.SendBuffer.Emit.{
  Emits, Refused, put, size-put, >>-Emits, skip-Emits, Refused-after, Refused-bind,
}
use onwards.Messages.{reserve}
use onwards.Messages.Room.{reserve_ok}
use onwards.Complex.{has_objects, Segment, marshal_segment, marshal_segments, marshal_collection}

-- The two parts of marshalSegments: what it counts, and what it writes
abbrev pub count_segments : List Segment → ℕ
count_segments [] = 0
count_segments (c ∷ cs) =
    if has_objects c then ((1 + count_segments cs) % 256) else count_segments cs

abbrev write_segments : List Segment → M SendBuffer (Unit {0})
write_segments [] = λ b. ok tt b
write_segments (c ∷ cs) =
    if has_objects c
    then (receive_value c.type_num >> marshal_segment c.write c.elements >> write_segments cs)
    else write_segments cs

bind_counted :
    (r : Run SendBuffer (Unit {0})) (f : ℕ → ℕ) (m : M SendBuffer ℕ) (n : M SendBuffer (Unit {0}))
    (k : ℕ)
    → ((b : SendBuffer) → m b ≡ bind (n b) (λ _ b. ok k b))
    → bind r (λ _ b. bind (m b) (λ a b. ok (f a) b)) ≡ bind (bind r (λ _. n)) (λ _ b. ok (f k) b)
bind_counted (ok a b) f m n k h = ap (λ t. bind t (λ a b. ok (f a) b)) (h b) ∙ by_run (n b)
  where
    by_run :
        (q : Run SendBuffer (Unit {0}))
        → bind (bind q (λ _ b. ok k b)) (λ a b. ok (f a) b) ≡ bind q (λ _ b. ok (f k) b)
    by_run (ok a b) = refl
    by_run (raised e b) = refl
    by_run fault = refl
bind_counted (raised e b) f m n k h = refl
bind_counted fault f m n k h = refl

marshal_segments_lem :
    (cs : List Segment) (b : SendBuffer)
    → marshal_segments cs b ≡ bind (write_segments cs b) (λ _ b. ok (count_segments cs) b)
unfolding marshal_segments
marshal_segments_lem [] b = refl
marshal_segments_lem (c ∷ cs) b = by_test (has_objects c) (marshal_segments_lem cs)
  where
    by_test :
        (t : Bool)
        → ((b : SendBuffer)
            → marshal_segments cs b ≡ bind (write_segments cs b) (λ _ b. ok (count_segments cs) b))
        → (if t
              then (receive_value c.type_num
                  >> marshal_segment c.write c.elements
                  >> (marshal_segments cs >>= λ segs. return ((1 + segs) % 256)))
              else marshal_segments cs)
            b
          ≡ bind
              ((if t
                  then (receive_value c.type_num
                      >> marshal_segment c.write c.elements
                      >> write_segments cs)
                  else write_segments cs)
                b)
              (λ _ b. ok (if t then ((1 + count_segments cs) % 256) else count_segments cs) b)
    by_test true rest =
        bind_counted ((receive_value c.type_num >> marshal_segment c.write c.elements) b)
          (λ a. (1 + a) % 256) (marshal_segments cs) (write_segments cs) (count_segments cs) rest
    by_test false rest = rest b

-- The bytes of the segments, given those of each
abbrev pub SegmentsEmit : Width → List Segment → List (List ℕ) → Type 0
SegmentsEmit w [] [] = Unit
SegmentsEmit w [] (bs ∷ bss) = ⊥
SegmentsEmit w (c ∷ cs) [] = ⊥
SegmentsEmit w (c ∷ cs) (bs ∷ bss) =
    Emits w (receive_value c.type_num >> marshal_segment c.write c.elements) bs
    × SegmentsEmit w cs bss

abbrev pub sent : List Segment → List (List ℕ) → List ℕ
sent [] bss = []
sent (c ∷ cs) [] = []
sent (c ∷ cs) (bs ∷ bss) = if has_objects c then (bs ++ sent cs bss) else sent cs bss

write_segments-Emits :
    (w : Width) (cs : List Segment) (bss : List (List ℕ))
    → SegmentsEmit w cs bss
    → Emits w (write_segments cs) (sent cs bss)
write_segments-Emits w [] [] h = skip-Emits w
write_segments-Emits w [] (bs ∷ bss) h = absurd h
write_segments-Emits w (c ∷ cs) [] h = absurd h
write_segments-Emits w (c ∷ cs) (bs ∷ bss) h =
    by_test (has_objects c) (write_segments-Emits w cs bss h.1)
  where
    by_test :
        (t : Bool)
        → Emits w (write_segments cs) (sent cs bss)
        → Emits w
            (if t
              then (receive_value c.type_num
                  >> marshal_segment c.write c.elements
                  >> write_segments cs)
              else write_segments cs)
            (if t then (bs ++ sent cs bss) else sent cs bss)
    by_test true rest = >>-Emits w h.0 rest
    by_test false rest = rest

-- reserveBytes, with the place that it returns
state_of : SendBuffer → Run SendBuffer (Unit {0}) → SendBuffer
state_of d (ok a b) = b
state_of d (raised e b) = b
state_of d fault = d

reserve_at :
    (w : Width) (k : ℤ) (v : View)
    → Fits w v
    → 1 ≤ length v.rest
    → reserve_bytes (pos 1) (of_view w k v)
      ≡ ok (pos (length v.done + length v.cur)) (of_view w k (put (take 1 v.rest) v))
unfolding reserve state_of
reserve_at w k v fits h =
    let at = reserve_bytes_ok w k v fits 1 h in
    let same = sym (ap (λ r. bind r (λ _ b. ok tt b)) at) ∙ reserve_ok w k v 1 fits h in
    at ∙ ap (λ r. ok (pos (length v.done + length v.cur)) (state_of (of_view w k v) r)) same

written_lem :
    (cs : List Segment) (i : ℤ) (b : SendBuffer)
    → bind (marshal_segments cs b) (λ segs. receive_at i (segs ∷ []))
      ≡ bind (write_segments cs b) (λ _. receive_at i (count_segments cs ∷ []))
written_lem cs i b =
    ap (λ r. bind r (λ segs. receive_at i (segs ∷ []))) (marshal_segments_lem cs b)
    ∙ by_run (write_segments cs b)
  where
    by_run :
        (r : Run SendBuffer (Unit {0}))
        → bind (bind r (λ _ b. ok (count_segments cs) b)) (λ segs. receive_at i (segs ∷ []))
          ≡ bind r (λ _. receive_at i (count_segments cs ∷ []))
    by_run (ok a b) = refl
    by_run (raised e b) = refl
    by_run fault = refl

module _ (w : Width) (cs : List Segment) (bss : List (List ℕ)) (each : SegmentsEmit w cs bss)
    (k : ℤ) (v : View) (fits : Fits w v) (some_room : 1 ≤ length v.rest) where
  abbrev counter : View
  counter = put (take 1 v.rest) v

  size-counter : size counter ≡ size v
  size-counter = size-put (take 1 v.rest) v (omega (arith, length-take 1 v.rest))

  length-counter : length counter.rest + 1 ≡ length v.rest
  length-counter = omega (arith, length-take 1 v.rest, length-drop (length (take 1 v.rest)) v.rest)

  opened :
      marshal_collection cs (of_view w k v)
      ≡ bind
          (write_segments cs (of_view w k counter))
          (λ _. receive_at (pos (length v.done + length v.cur)) (count_segments cs ∷ []))
  unfolding marshal_collection
  opened =
      ap (λ r. bind r (λ i. marshal_segments cs >>= λ segs. receive_at i (segs ∷ [])))
        (reserve_at w k v fits some_room)
      ∙ written_lem cs (pos (length v.done + length v.cur)) (of_view w k counter)

  collected :
      length (sent cs bss) + 1 ≤ length v.rest
      → marshal_collection cs (of_view w k v)
        ≡ ok tt (of_view w k (put (count_segments cs ∷ sent cs bss) v))
  collected h =
      opened
      ∙ ap
          (λ r.
            bind r (λ _. receive_at (pos (length v.done + length v.cur)) (count_segments cs ∷ [])))
          ((write_segments-Emits w cs bss each).fits_ok k counter (omega (arith, size-counter))
            (omega (arith, length-counter)))
      ∙ receive_at_lem w k (put (sent cs bss) counter)
          (omega
            (arith, size-counter, size-put (sent cs bss) counter (omega (arith, length-counter))))
          v.cur (take 1 v.rest) (count_segments cs ∷ []) (sent cs bss)
          (length v.done + length v.cur) (append_assoc v.cur (take 1 v.rest) (sent cs bss))
          (omega (arith, length-take 1 v.rest)) refl
      ∙ λ i. ok tt (
          of_view w k (record v {
            cur = v.cur ++ (count_segments cs ∷ sent cs bss);
            rest =
                drop-drop (length (sent cs bss)) (length (take 1 v.rest))
                  (suc (length (sent cs bss))) v.rest (omega (arith, length-take 1 v.rest)) i;
          }))

  overflown :
      length v.rest < length (sent cs bss) + 1
      → Refused w k v (marshal_collection cs (of_view w k v))
  overflown h = Refused-after counter refl size-counter opened (
      Refused-bind _ (
        (write_segments-Emits w cs bss each).full k counter (omega (arith, size-counter))
          (omega (arith, length-counter))))

-- A collection is bytes that can be told from its segments.
pub marshal_collection-Emits :
    (w : Width) (cs : List Segment) (bss : List (List ℕ))
    → SegmentsEmit w cs bss
    → Emits w (marshal_collection cs) (count_segments cs ∷ sent cs bss)
unfolding marshal_collection
marshal_collection-Emits w cs bss each = record {
  fits_ok = λ k v fits h. collected w cs bss each k v fits (omega arith) (omega arith);
  full = λ k v fits h. elim (dec_le 1 (length v.rest)) [
    | yes room ↦ overflown w cs bss each k v fits room (omega arith)
    | no none_left ↦ record {
      thrown = _;
      left = v;
      outcome =
          ap (λ r. bind r (λ i. marshal_segments cs >>= λ segs. receive_at i (segs ∷ [])))
            (reserve_bytes_full w k v fits 1 (omega arith));
      done_kept = refl;
      size_kept = refl;
    }
  ];
}
