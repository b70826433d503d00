-- ===== src/Messages/Refines.antt =====
-- A SendBuffer is an outbox: every sequence of messages and resets gives the same answers on both.
use mathlib.Core.Path.{subst}
use onwards.Prelude.{
  ℕ, ◌+◌, ◌<◌, ◌≡◌, refl, sym, List, [], ◌∷◌, ◌++◌, ℤ, pos, Width, length, length-append,
  take-append, none, some, arith, ap, ◌∙◌, half_range, half_le,
}
use onwards.SendBuffer.{SendBuffer, out_duo}
use onwards.ReceiveBuffer.Packet.{frame, frames, length-frame, AllShort, Walks, update-Walks}
use onwards.ReceiveBuffer.{ReceiveBuffer, update}
use onwards.Messages.Answering.{perform-Answers, act-capacity}
use onwards.Messages.Outbox.{
  Outbox, Action, then_perform, act, act_all, perform, perform_all, AllWrite, Holds, Answers,
}

module _ (w : Width) where
  act_all-capacity :
      (actions : List Action) (o : Outbox) → (act_all w actions o).1.capacity ≡ o.capacity
  act_all-capacity [] o = refl
  act_all-capacity (a ∷ more) o = act_all-capacity more (act w a o).1 ∙ act-capacity w a o

  out_duo-Holds :
      (k : ℤ) (b : SendBuffer) (o : Outbox) → Holds w k b o → out_duo b ≡ frames w o.messages
  unfolding out_duo
  out_duo-Holds k b o h =
      ap out_duo h.same
      ∙ take-append (length (frames w o.messages) + 0) (frames w o.messages) h.space (omega arith)

  perform_all-Holds :
      (actions : List Action) (k : ℤ) (b : SendBuffer) (o : Outbox)
      → AllWrite w actions
      → o.capacity < half_range w
      → Holds w k b o
      → (b' : SendBuffer) × (perform_all w actions b ≡ some ((act_all w actions o).0, b'))
        × Holds w k b' (act_all w actions o).1
  perform_all-Holds [] k b o e fits h = (b, refl, h)
  perform_all-Holds (a ∷ more) k b o e fits h =
      let first : Answers w k (perform w a b) (act w a o) =
        subst (λ b. Answers w k (perform w a b) (act w a o)) (sym h.same)
          (perform-Answers w a k o h.space e.0 fits h.whole) in
      let rest =
        perform_all-Holds more k first.0 (act w a o).1 e.1 (omega (arith, act-capacity w a o))
          first.2 in
      (
        rest.0,
        ap (λ r. then_perform r (perform_all w more)) first.1
            ∙ ap (λ r. elim r [ none ↦ none | some (ts, b) ↦ some ((act w a o).0 ∷ ts, b) ]) rest.1,
        rest.2,
      )

  -- A buffer whose capacity the index type can hold implements an outbox: for every sequence of
  -- messages, with and without an id, and of resets, if the writers write the bytes given for
  -- them, the buffer and the outbox return and throw at the same places, no access is out of
  -- bounds, and afterwards the buffer holds exactly the messages of the outbox, which are what
  -- outDuo sends.
  pub perform_all-act_all :
      (actions : List Action) (k : ℤ) (b : SendBuffer) (o : Outbox)
      → AllWrite w actions
      → o.capacity < half_range w
      → Holds w k b o
      → (b' : SendBuffer) × (perform_all w actions b ≡ some ((act_all w actions o).0, b'))
        × Holds w k b' (act_all w actions o).1
        × (out_duo b' ≡ frames w (act_all w actions o).1.messages)
  perform_all-act_all actions k b o e fits h =
      let done = perform_all-Holds actions k b o e fits h in
      (done.0, done.1, done.2, out_duo-Holds k done.0 (act_all w actions o).1 done.2)

  frames-AllShort :
      (bodies : List (List ℕ)) → length (frames w bodies) < half_range w → AllShort w bodies
  frames-AllShort [] h = tt
  frames-AllShort (body ∷ bodies) h =
      let lengths = length-append (frame w body) (frames w bodies) in
      (omega (arith, length-frame w body, lengths), frames-AllShort bodies (omega (arith, lengths)))

  -- After any sequence of messages and resets on a buffer whose capacity the index type can hold,
  -- with writers that write the bytes given for them, a receiver whose block begins with what
  -- outDuo sends opens exactly the messages of the outbox, one after the other and each with its
  -- content, whatever state it was in and whatever part of each message is read.
  pub delivered_all :
      (actions : List Action) (k : ℤ) (b : SendBuffer) (o : Outbox)
      → AllWrite w actions
      → o.capacity < half_range w
      → Holds w k b o
      → (b' : SendBuffer) × (perform_all w actions b ≡ some ((act_all w actions o).0, b'))
        × ((r : ReceiveBuffer) (slack : List ℕ)
            → Walks w
                (pos (length (out_duo b')))
                (update (length (out_duo b')) (record r { width = w; rbuf = out_duo b' ++ slack }))
                (act_all w actions o).1.messages)
  delivered_all actions k b o e fits h =
      let done = perform_all-act_all actions k b o e fits h in
      let o' = (act_all w actions o).1 in
      let short : length (frames w o'.messages) < half_range w =
        omega (arith, done.2.whole, act_all-capacity actions o) in
      (
        done.0,
        done.1,
        λ r slack. rw (done.3) (
            update-Walks (record r { width = w; rbuf = frames w o'.messages ++ slack }) o'.messages
              slack (frames-AllShort o'.messages short) (half_le w _ short) refl),
      )
