-- ===== src/Messages/Answering.antt =====
-- One message or reset on a SendBuffer and on an outbox: marshal of src/tiers/cmwAmb.mdl.hh with
-- reset and rollback of src/cmwBuffer.hh
use mathlib.Core.Path.{subst}
use native.Mathlib.Decide.{dec_le}
use onwards.Prelude.{
  ℕ, ◌+◌, ◌≤◌, ◌<◌, ◌≡◌, refl, sym, List, [], ◌∷◌, ◌++◌, ℤ, pos, Width, size_of, length,
  length-append, length-drop, append-nil, append_assoc, true, false, arith, ap, ◌∙◌, inl, inr, ◌⊎◌,
  half_range, drop,
}
use onwards.Failure.{Run, ok}
use onwards.SendBuffer.{SendBuffer, reset}
use onwards.SendBuffer.Space.{of_view, Fits}
use onwards.ReceiveBuffer.Packet.{frame, frames, length-frame}
use onwards.Messages.{marshal_sized, marshal_hdr}
use onwards.Messages.Room.{added, Unchanged}
use onwards.Messages.Framing.{
  marshal_sized_ok, marshal_sized_refused, marshal_hdr_ok, marshal_hdr_refused,
}
use onwards.Messages.Outbox.{
  Outbox, Action, sized, named, emptied, answer, used, post, act, perform, view, Writes, Holds,
  Answers,
}

module _ (w : Width) where
  post-capacity :
      (max : ℕ) (body : List ℕ) (o : Outbox) → (post w max body o).1.capacity ≡ o.capacity
  post-capacity max body o = ground arith

  frames_snoc :
      (ms : List (List ℕ)) (m : List ℕ) → frames w (ms ++ (m ∷ [])) ≡ frames w ms ++ frame w m
  frames_snoc [] m = append-nil (frame w m)
  frames_snoc (x ∷ ms) m =
      ap (λ t. frame w x ++ t) (frames_snoc ms m)
      ∙ sym (append_assoc (frame w x) (frames w ms) (frame w m))

  module _ (k : ℤ) (o : Outbox) (space : List ℕ) (whole : used w o + length space ≡ o.capacity)
      (fits : o.capacity < half_range w) where
    taken :
        (body : List ℕ)
        → size_of w + length body ≤ length space
        → Holds w k
            (of_view w k (added w body (view w o space)))
            (record o { messages = o.messages ++ (body ∷ []) })
    taken body h = record {
      space = drop (size_of w + length body) space;
      same = λ i. of_view w k (record {
        done = sym (frames_snoc o.messages body) i;
        cur = [];
        rest = drop (size_of w + length body) space;
      });
      whole = omega (
        arith,
        ap length (frames_snoc o.messages body),
        length-append (frames w o.messages) (frame w body),
        length-frame w body,
        length-drop (size_of w + length body) space,
      );
    }

    refused :
        (r : Run SendBuffer (Unit {0}))
        → Unchanged w k (view w o space) r
        → Answers w k (answer r) (false, o)
    refused r u = (
      of_view w k u.left,
      ap answer u.outcome,
      record {
        space = u.left.rest;
        same = λ i.
            of_view w k (record { done = u.done_kept i; cur = u.cur_empty i; rest = u.left.rest });
        whole = omega (arith, u.size_kept, ap length u.done_kept, ap length u.cur_empty);
      },
    )

    post_taken :
        (max : ℕ) (body : List ℕ)
        → size_of w + length body ≤ length space
        → size_of w + length body ≤ max
        → post w max body o ≡ (true, record o { messages = o.messages ++ (body ∷ []) })
    post_taken max body h m = ground arith

    post_refused :
        (max : ℕ) (body : List ℕ)
        → (length space < size_of w + length body) ⊎ (max < size_of w + length body)
        → post w max body o ≡ (false, o)
    post_refused max body h = ground arith

    posted :
        (max : ℕ) (body : List ℕ) (r : Run SendBuffer (Unit {0}))
        → (size_of w + length body ≤ length space
            → size_of w + length body ≤ max
            → r ≡ ok tt (of_view w k (added w body (view w o space))))
        → ((length space < size_of w + length body) ⊎ (max < size_of w + length body)
            → Unchanged w k (view w o space) r)
        → Answers w k (answer r) (post w max body o)
    posted max body r when_taken when_refused =
        elim (dec_le (size_of w + length body) (length space)) [
          | yes room ↦ elim (dec_le (size_of w + length body) max) [
            | yes short ↦
                subst (Answers w k (answer r)) (sym (post_taken max body room short))
                  (_, ap answer (when_taken room short), taken body room)
            | no long ↦
                subst (Answers w k (answer r)) (sym (post_refused max body (inr (omega arith))))
                  (refused r (when_refused (inr (omega arith))))
          ]
          | no full ↦
              subst (Answers w k (answer r)) (sym (post_refused max body (inl (omega arith))))
                (refused r (when_refused (inl (omega arith))))
        ]

  reset-Holds :
      (k : ℤ) (o : Outbox) (space : List ℕ)
      → used w o + length space ≡ o.capacity
      → Holds w k (reset (of_view w k (view w o space))) (record o { messages = [] })
  unfolding reset
  reset-Holds k o space whole = record {
    space = frames w o.messages ++ space;
    same = λ i. record {
      width = w;
      buf = frames w o.messages ++ space;
      bufsize = pos (total i);
      saved_size = pos 0;
      index = pos 0;
      sock = k;
    };
    whole = omega (arith, total);
  }
    where
      total :
          length (frames w o.messages) + 0 + length space
          ≡ 0 + 0 + length (frames w o.messages ++ space)
      total = omega (arith, length-append (frames w o.messages) space)

  pub perform-Answers :
      (a : Action) (k : ℤ) (o : Outbox) (space : List ℕ)
      → Writes w a
      → o.capacity < half_range w
      → used w o + length space ≡ o.capacity
      → Answers w k (perform w a (of_view w k (view w o space))) (act w a o)
  perform-Answers (sized max mar body) k o space e fits whole =
      let v = view w o space in
      let f : Fits w v = omega arith in
      posted k o space whole fits max body (marshal_sized max mar (of_view w k v))
        (marshal_sized_ok w k v f refl max e) (marshal_sized_refused w k v f refl max e)
  perform-Answers (named max id mar body) k o space e fits whole =
      let v = view w o space in
      let f : Fits w v = omega arith in
      posted k o space whole fits max (id ∷ body) (marshal_hdr id max mar (of_view w k v))
        (marshal_hdr_ok w k v f refl max id e) (marshal_hdr_refused w k v f refl max id e)
  perform-Answers emptied k o space e fits whole =
      (reset (of_view w k (view w o space)), refl, reset-Holds k o space whole)

  pub act-capacity : (a : Action) (o : Outbox) → (act w a o).1.capacity ≡ o.capacity
  act-capacity (sized max mar body) o = post-capacity max body o
  act-capacity (named max id mar body) o = post-capacity max (id ∷ body) o
  act-capacity emptied o = refl
