-- ===== src/Messages/Room.antt =====
-- The room for a header and the content behind it, and the rollback of what did not fit.
use onwards.Prelude.{
  ℕ, ◌+◌, ◌≤◌, ◌<◌, ◌≡◌, refl, sym, List, [], ◌++◌, ℤ, pos, Width, size_of, length, length-append,
  length-take, length-drop, take, drop, take-append-drop, drop-drop, arith, ap, ◌∙◌, append_assoc,
}
use native.Mathlib.Decide.{dec_le}
use onwards.Failure.{Failure, Run, M, ok, raised, bind, rethrow, ◌>>◌}
use onwards.SendBuffer.{SendBuffer, rollback}
use onwards.SendBuffer.Space.{View, size, of_view, Fits, reserve_bytes_ok, reserve_bytes_full}
use onwards.SendBuffer.Frame.{rollback_lem}
use onwards.SendBuffer.Emit.{Emits, Refused, put, size-put, Refused-after, Refused-bind}
use onwards.ReceiveBuffer.Packet.{frame}
use onwards.Messages.{reserve}

-- Reserved room holds what stood there.
pub reserve_ok :
    (w : Width) (k : ℤ) (v : View) (n : ℕ)
    → Fits w v
    → n ≤ length v.rest
    → reserve n (of_view w k v) ≡ ok tt (of_view w k (put (take n v.rest) v))
unfolding reserve
reserve_ok w k v n fits h =
    ap (λ r. bind r (λ _ b. ok tt b)) (reserve_bytes_ok w k v fits n h) ∙ λ i. ok tt (record {
      width = w;
      buf = layout i;
      bufsize = pos (total i);
      saved_size = pos (length v.done);
      index = pos (place i);
      sock = k;
    })
  where
    len : length (take n v.rest) ≡ n
    len = omega (arith, length-take n v.rest)

    total : size v ≡ size (put (take n v.rest) v)
    total = sym (size-put (take n v.rest) v (omega (arith, len)))

    place : length v.done + length v.cur + n ≡ length v.done + length (v.cur ++ take n v.rest)
    place = omega (arith, len, length-append v.cur (take n v.rest))

    layout :
        v.done ++ (v.cur ++ v.rest)
        ≡ v.done ++ ((v.cur ++ take n v.rest) ++ drop (length (take n v.rest)) v.rest)
    layout =
        ap (λ t. v.done ++ t)
          (rw len (
            ap (λ t. v.cur ++ t) (sym (take-append-drop n v.rest))
            ∙ sym (append_assoc v.cur (take n v.rest) (drop n v.rest))))

reserve_full :
    (w : Width) (k : ℤ) (v : View) (n : ℕ)
    → Fits w v
    → length v.rest < n
    → Refused w k v (reserve n (of_view w k v))
unfolding reserve
reserve_full w k v n fits h = record {
  thrown = _;
  left = v;
  outcome = ap (λ r. bind r (λ _ b. ok tt b)) (reserve_bytes_full w k v fits n h);
  done_kept = refl;
  size_kept = refl;
}

-- The buffer with one more message.
abbrev pub added : Width → List ℕ → View → View
added w body v = record {
  done = v.done ++ frame w body;
  cur = [];
  rest = drop (size_of w + length body) v.rest;
}

-- The call threw, and the buffer holds the messages that it held, and no part of another.
pub record Unchanged (w : Width) (k : ℤ) (v : View) (r : Run SendBuffer (Unit {0})) : Type 0 where
  pub thrown : Failure
  pub left : View
  pub outcome : r ≡ raised thrown (of_view w k left)
  pub done_kept : left.done ≡ v.done
  pub cur_empty : left.cur ≡ []
  pub size_kept : size left ≡ size v

pub rolled_back :
    (w : Width) (k : ℤ) (v : View) {r : Run SendBuffer (Unit {0})}
    → Fits w v
    → Refused w k v r
    → Unchanged w k v (rethrow rollback r)
rolled_back w k v fits t = record {
  thrown = t.thrown;
  left = record { done = t.left.done; cur = []; rest = t.left.cur ++ t.left.rest };
  outcome =
      ap (rethrow rollback) t.outcome
      ∙ ap (raised t.thrown) (rollback_lem w k t.left (omega (arith, t.size_kept)));
  done_kept = t.done_kept;
  cur_empty = refl;
  size_kept = omega (arith, t.size_kept, length-append t.left.cur t.left.rest);
}

-- Room for the header, and the content behind it.
module _ (w : Width) (k : ℤ) (v : View) (fits : Fits w v) (empty : v.cur ≡ []) (n : ℕ)
    {mar : M SendBuffer (Unit {0})} {bs : List ℕ} (content : Emits w mar bs) where
  abbrev pub filled : View
  filled = put bs (put (take n v.rest) v)

  pub room_size : n ≤ length v.rest → length (take n v.rest) ≡ n
  room_size h = omega (arith, length-take n v.rest)

  pub filled_cur : filled.cur ≡ take n v.rest ++ bs
  filled_cur = ap (λ t. (t ++ take n v.rest) ++ bs) empty

  pub length_cur : n ≤ length v.rest → length filled.cur ≡ n + length bs
  length_cur h = ap length filled_cur ∙ omega (arith, length-append (take n v.rest) bs, room_size h)

  pub filled_rest : n ≤ length v.rest → filled.rest ≡ drop (n + length bs) v.rest
  filled_rest h =
      drop-drop (length bs) (length (take n v.rest)) (n + length bs) v.rest
        (omega (arith, room_size h))

  pub filled_fits : n + length bs ≤ length v.rest → size filled ≡ size v
  filled_fits h =
      size-put bs (put (take n v.rest) v)
        (omega (arith, room_size (omega arith), length-drop (length (take n v.rest)) v.rest))
      ∙ size-put (take n v.rest) v (omega (arith, length-take n v.rest))

  reserved :
      n ≤ length v.rest
      → (reserve n >> mar) (of_view w k v) ≡ mar (of_view w k (put (take n v.rest) v))
  reserved h = ap (λ r. bind r (λ _. mar)) (reserve_ok w k v n fits h)

  room_fits : n ≤ length v.rest → size (put (take n v.rest) v) ≡ size v
  room_fits h = size-put (take n v.rest) v (omega (arith, length-take n v.rest))

  pub content_ok :
      n + length bs ≤ length v.rest
      → (reserve n >> mar) (of_view w k v) ≡ ok tt (of_view w k filled)
  content_ok h =
      reserved (omega arith)
      ∙ content.fits_ok k (put (take n v.rest) v) (omega (arith, room_fits (omega arith)))
          (omega (arith, room_size (omega arith), length-drop (length (take n v.rest)) v.rest))

  pub content-Refused :
      length v.rest < n + length bs → Refused w k v ((reserve n >> mar) (of_view w k v))
  content-Refused h = elim (dec_le n (length v.rest)) [
    | yes room ↦ Refused-after (put (take n v.rest) v) refl (room_fits room) (reserved room) (
        content.full k (put (take n v.rest) v) (omega (arith, room_fits room))
          (omega (arith, room_size room, length-drop (length (take n v.rest)) v.rest)))
    | no full ↦ Refused-bind mar (reserve_full w k v n fits (omega arith))
  ]
