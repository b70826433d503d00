-- ===== src/Ambassador/Popping.antt =====
-- The handler of a reply from the back tier (the case Recv of main in src/tiers/cmwAmb.cc)
use mathlib.Core.Path.{subst}
use onwards.Prelude.{
  ◌≡◌, refl, sym, List, [], ◌∷◌, pos, ◌+ℤ◌, ap, ◌∙◌, Bool, true, false, if◌then◌else◌,
}
use onwards.Failure.{Run, ok, raised, fault, bind, codes, ◌>>◌, ◌>>=◌}
use onwards.ReceiveBuffer.{give_bool}
use onwards.MarshallingInt.{give_string_view}
use onwards.Compressed.{Quicklz, decompress}
use onwards.Ambassador.{Amb, CmwRequest, Op, close, World, on_buf, on_in, attempt}
use onwards.Ambassador.Ring.{ring_recv9, ring_op, ring_sendto}
use onwards.Ambassador.Request.{destroy, save_request}
use onwards.Ambassador.Order.{entries}
use onwards.Ambassador.Newest.{
  Leaves, then_Leaves, Returns, bind-Returns, both_Returns, After-Returns, Informs,
  ring_sendto-Informs, ring_op-OnTop,
}
use onwards.Ambassador.Keeps.{After, ring_op-Keeps, bind-After, on_buf-Keeps}
use onwards.Ambassador.Keeping.{answered-Keeps}
use onwards.Ambassador.Login.{Step, going, put_in}
use onwards.Ambassador.Loop.{Completion, answer, answered, tail_of, pop_front, on_reply, on_recv}

module _ {q : Quicklz} where
  answer-Informs :
      (w : World) (r : CmwRequest) (s : Amb q)
      → Returns (λ t. Informs r.frnt (entries t)) (answer w r s)
  unfolding answer
  answer-Informs w r s =
      let P = λ (t : Amb q). Informs r.frnt (entries t) in
      bind-Returns P (ring_recv9 s) _ λ _ s1.
        bind-Returns P (on_buf (decompress q) s1) _
          λ _ s2. bind-Returns P (on_in give_bool s2) _ λ good s3. by_verdict good s3
    where
      by_verdict :
          (good : Bool) (s : Amb q)
          → Returns
              (λ t. Informs r.frnt (entries t))
              ((if good
                  then (save_request w r >> ring_sendto r.frnt [])
                  else (on_in give_string_view >>= λ s. ring_sendto r.frnt (codes "CMW:" ∷ s ∷ [])))
                s)
      by_verdict true s =
          bind-Returns _ (save_request w r s) (λ _. ring_sendto r.frnt [])
            (λ _. ring_sendto-Informs r.frnt [])
      by_verdict false s =
          bind-Returns _ (on_in give_string_view s) _
            (λ t. ring_sendto-Informs r.frnt (codes "CMW:" ∷ t ∷ []))

  answered-Informs :
      (w : World) (r : CmwRequest) (s : Amb q)
      → Returns (λ t. Informs r.frnt (entries t)) (answered w r s)
  unfolding answered
  answered-Informs w r s = by_run (answer w r s) (answer-Informs w r s)
    where
      by_run :
          (m : Run (Amb q) (Unit {0}))
          → Returns (λ t. Informs r.frnt (entries t)) m
          → Returns
              (λ t. Informs r.frnt (entries t))
              (attempt m (λ e. ring_sendto r.frnt (e.st ∷ [])))
      by_run (ok a t) h = h
      by_run (raised e t) h = ring_sendto-Informs r.frnt (e.st ∷ []) t
      by_run fault h = tt

  -- What the handler of a reply leaves: the request is gone, the front tier that sent it is told, and
  -- then the descriptor is closed.
  abbrev pub Popped : CmwRequest → List CmwRequest → Step → Amb q → Type 0
  Popped r rs step t =
      (step ≡ going)
      × (t.requests ≡ rs)
      × ((es : List Op) × (entries t ≡ close (pos r.dotfd) ∷ es) × Informs r.frnt es)

  -- The state before the request is popped
  abbrev Answered : CmwRequest → List CmwRequest → Amb q → Type 0
  Answered r rs t = (t.requests ≡ r ∷ rs) × Informs r.frnt (entries t)

  pop_front-Popped :
      (w : World) (r : CmwRequest) (rs : List CmwRequest) (s : Amb q)
      → Answered r rs s
      → Leaves (Popped r rs) (pop_front w r s)
  unfolding pop_front destroy
  pop_front-Popped w r rs s (requests, informs) =
      then_Leaves (λ t. (entries t ≡ close (pos r.dotfd) ∷ entries s) × (t.requests ≡ r ∷ rs))
        (Popped r rs) (ring_op (close (pos r.dotfd)) s) _
        (both_Returns _ _ (ring_op (close (pos r.dotfd)) s) (ring_op-OnTop (close (pos r.dotfd)) s)
          (After-Returns (r ∷ rs) (ring_op (close (pos r.dotfd)) s) (
            subst (λ u. After u (ring_op (close (pos r.dotfd)) s)) requests
              ((ring_op-Keeps (close (pos r.dotfd))).kept s))))
        (λ t (closed, same). (refl, ap tail_of same, (entries s, closed, informs)))

  on_reply-Popped :
      (w : World) (c : Completion) (r : CmwRequest) (rs : List CmwRequest) (s : Amb q)
      → s.requests ≡ r ∷ rs
      → Leaves (Popped r rs) (on_reply w c (r ∷ rs) s)
  unfolding on_reply
  on_reply-Popped w c r rs s e =
      then_Leaves (Answered r rs) (Popped r rs)
        (bind (on_buf (λ b. put_in (b.compressed_start +ℤ pos 9) c.bytes b) s) (λ _. answered w r))
        (pop_front w r)
        (both_Returns _ _ _
          (After-Returns (r ∷ rs) _ (
            bind-After (r ∷ rs) (on_buf (λ b. put_in (b.compressed_start +ℤ pos 9) c.bytes b) s) _
              (subst (λ u. After u (on_buf (λ b. put_in (b.compressed_start +ℤ pos 9) c.bytes b) s))
                e ((on_buf-Keeps (λ b. put_in (b.compressed_start +ℤ pos 9) c.bytes b)).kept s))
              (λ _. answered-Keeps w r)))
          (bind-Returns _ (on_buf (λ b. put_in (b.compressed_start +ℤ pos 9) c.bytes b) s) _
            (λ _. answered-Informs w r)))
        (pop_front-Popped w r rs)

  -- When the handler of a reply returns, where at least one request waits, the process goes on,
  -- the request that has waited longest is taken away and the others stay in their order; the
  -- newest entry of the ring closes the file descriptor of that request, and the one before it
  -- sends the front tier that made the request a message of front::marshal.
  pub on_recv-Popped :
      (w : World) (c : Completion) (r : CmwRequest) (rs : List CmwRequest) (s t : Amb q)
      (step : Step)
      → s.requests ≡ r ∷ rs
      → on_recv w c s ≡ ok step t
      → Popped r rs step t
  unfolding on_recv
  on_recv-Popped w c r rs s t step waits returns =
      subst (Leaves (Popped r rs)) (ap (λ u. on_reply w c u s) (sym waits) ∙ returns)
        (on_reply-Popped w c r rs s waits)
