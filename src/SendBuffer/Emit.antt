-- ===== src/SendBuffer/Emit.antt =====
-- What a marshalling function does to a SendBuffer: it appends a fixed text of bytes to the message
-- in the making, or throws where the text does not fit. Sequences of such functions are such.
use onwards.Prelude.{
  append-nil, sym, ℕ, ◌+◌, ◌≤◌, ◌<◌, ◌≡◌, refl, List, [], ◌∷◌, ◌++◌, ℤ, pos, Width, half_range,
  length, length-append, length-drop, drop, drop-drop, arith, ap, ◌∙◌, append_assoc,
}
use native.Mathlib.Decide.{dec_le}
use onwards.Failure.{Failure, Run, M, ok, raised, failure, int, bind, ◌>>◌}
use onwards.SendBuffer.{SendBuffer, receive, receive_value}
use onwards.SendBuffer.Space.{View, size, of_view, Fits, receive_ok, receive_full}

-- Appending to the message in the making.
abbrev pub put : List ℕ → View → View
put bs v = record v { cur = v.cur ++ bs; rest = drop (length bs) v.rest }

-- The call threw. What it wrote lies behind the complete messages, in the same block.
pub record Refused {ℓ} {A : Type ℓ} (w : Width) (k : ℤ) (v : View) (r : Run SendBuffer A)
    : Type ℓ where
  pub thrown : Failure
  pub left : View
  pub outcome : r ≡ raised thrown (of_view w k left)
  pub done_kept : left.done ≡ v.done
  pub size_kept : size left ≡ size v

pub record Emits (w : Width) (m : M SendBuffer (Unit {0})) (bs : List ℕ) : Type 0 where
  pub fits_ok :
      (k : ℤ) (v : View)
      → Fits w v
      → length bs ≤ length v.rest
      → m (of_view w k v) ≡ ok tt (of_view w k (put bs v))
  pub full :
      (k : ℤ) (v : View) → Fits w v → length v.rest < length bs → Refused w k v (m (of_view w k v))

pub size-put : (bs : List ℕ) (v : View) → length bs ≤ length v.rest → size (put bs v) ≡ size v
size-put bs v h = omega (arith, length-append v.cur bs, length-drop (length bs) v.rest)

pub put-put : (xs ys : List ℕ) (v : View) → put ys (put xs v) ≡ put (xs ++ ys) v
put-put xs ys v = λ i. record {
  done = v.done;
  cur = append_assoc v.cur xs ys i;
  rest = drop-drop (length ys) (length xs) (length (xs ++ ys)) v.rest (length-append xs ys) i;
}

-- `receive` of a block of bytes that Z can measure.
pub receive-Emits :
    (w : Width) (bs : List ℕ) → length bs < half_range w → Emits w (receive bs (pos (length bs))) bs
receive-Emits w bs h = record {
  fits_ok = λ k v fits room. receive_ok w k v fits bs room;
  full = λ k v fits room. record {
    thrown =
        failure "SendBuffer reserveBytes"
          (int (pos (length bs)) ∷ int (pos (length v.done + length v.cur)) ∷ []);
    left = v;
    outcome = receive_full w k v fits (length bs) bs room h;
    done_kept = refl;
    size_kept = refl;
  };
}

pub receive_value-Emits :
    (w : Width) (bs : List ℕ) → length bs < half_range w → Emits w (receive_value bs) bs
unfolding receive_value
receive_value-Emits w bs h = receive-Emits w bs h

pub Refused-bind :
    {w : Width} {k : ℤ} {v : View} {r : Run SendBuffer (Unit {0})} (f : M SendBuffer (Unit {0}))
    → Refused w k v r
    → Refused w k v (bind r (λ _. f))
Refused-bind f t = record {
  thrown = t.thrown;
  left = t.left;
  outcome = ap (λ q. bind q (λ _. f)) t.outcome;
  done_kept = t.done_kept;
  size_kept = t.size_kept;
}

-- A call that throws after others have written.
pub Refused-after :
    {w : Width} {k : ℤ} {v : View} {q r : Run SendBuffer (Unit {0})} (u : View)
    → u.done ≡ v.done
    → size u ≡ size v
    → q ≡ r
    → Refused w k u r
    → Refused w k v q
Refused-after u d s e t = record {
  thrown = t.thrown;
  left = t.left;
  outcome = e ∙ t.outcome;
  done_kept = t.done_kept ∙ d;
  size_kept = t.size_kept ∙ s;
}

module _ (w : Width) {m n : M SendBuffer (Unit {0})} {xs ys : List ℕ} where
  -- One function after the other appends both texts.
  pub >>-Emits : Emits w m xs → Emits w n ys → Emits w (m >> n) (xs ++ ys)
  >>-Emits p q = record { fits_ok = ok_part; full = full_part }
    where
      first :
          (k : ℤ) (v : View)
          → Fits w v
          → length xs ≤ length v.rest
          → (m >> n) (of_view w k v) ≡ n (of_view w k (put xs v))
      first k v fits h = ap (λ r. bind r (λ _. n)) (p.fits_ok k v fits h)

      ok_part :
          (k : ℤ) (v : View)
          → Fits w v
          → length (xs ++ ys) ≤ length v.rest
          → (m >> n) (of_view w k v) ≡ ok tt (of_view w k (put (xs ++ ys) v))
      ok_part k v fits h =
          first k v fits (omega (arith, length-append xs ys))
          ∙ q.fits_ok k (put xs v)
              (omega (arith, size-put xs v (omega (arith, length-append xs ys))))
              (omega (arith, length-append xs ys, length-drop (length xs) v.rest))
          ∙ ap (λ t. ok tt (of_view w k t)) (put-put xs ys v)

      full_part :
          (k : ℤ) (v : View)
          → Fits w v
          → length v.rest < length (xs ++ ys)
          → Refused w k v ((m >> n) (of_view w k v))
      full_part k v fits h = elim (dec_le (length xs) (length v.rest)) [
        | yes room ↦ Refused-after (put xs v) refl (size-put xs v room) (first k v fits room) (
            q.full k (put xs v) (omega (arith, size-put xs v room))
              (omega (arith, length-append xs ys, length-drop (length xs) v.rest)))
        | no full ↦ Refused-bind n (p.full k v fits (omega arith))
      ]

-- Writing nothing.
pub skip-Emits : (w : Width) → Emits w (λ b. ok tt b) []
skip-Emits w = record {
  fits_ok =
      λ k v fits h. ap (λ c. ok tt (of_view w k (record v { cur = c }))) (sym (append-nil v.cur));
  full = λ k v fits h. elim h [ ];
}
