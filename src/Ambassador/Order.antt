-- ===== src/Ambassador/Order.antt =====
-- The entries of the submission queue, over the results of io_uring_submit_and_wait (submitBatch and
-- getSqe of src/tiers/cmwAmb.cc)
use mathlib.Core.Path.{subst}
use native.Mathlib.Decide.{dec_le}
use onwards.Prelude.{
  ℕ, zero, suc, ◌+◌, ◌-◌, ◌≤◌, ◌<◌, ◌≡◌, ◌≢◌, refl, sym, List, [], ◌∷◌, ◌++◌, ℤ, pos, negsuc,
  Bool-cases, inl, inr, ◌⊎◌, leb, length, take, drop, arith, ap, ◌∙◌, length-take, lt→ltb,
}
use onwards.Failure.{Run, ok, raised, fault, Failure, failure, int, bind}
use onwards.Compressed.{Quicklz}
use onwards.Uring.{sub_q}
use onwards.Ambassador.{Amb, Op, nop, Socky}
use onwards.Ambassador.Ring.{
  taken, submit_with, submit_batch, get_sqe_done, get_sqe, prep, ring_op, ring_sendto,
  front_message, next_ind,
}

-- `k` calls that a signal interrupts
abbrev pub interrupted : ℕ → List ℤ
interrupted zero = []
interrupted (suc k) = negsuc 3 ∷ interrupted k

take-drop : (n : ℕ) (xs ys : List Op) → take n xs ++ (drop n xs ++ ys) ≡ xs ++ ys
take-drop zero xs ys = refl
take-drop (suc n) [] ys = refl
take-drop (suc n) (x ∷ xs) ys = ap (λ t. x ∷ t) (take-drop n xs ys)

module _ {q : Quicklz} where
  -- All entries, the newest first
  abbrev pub entries : Amb q → List Op
  entries s = s.queued ++ s.submitted

  pub taken-entries : (n : ℕ) (s : Amb q) → entries (taken n s) ≡ entries s
  unfolding taken
  taken-entries n s = take-drop (length s.queued - n) s.queued s.submitted

  submit_with-interrupted :
      (k : ℕ) (rcs : List ℤ) (s : Amb q) → submit_with (interrupted k ++ rcs) s ≡ submit_with rcs s
  unfolding submit_with
  submit_with-interrupted zero rcs s = refl
  submit_with-interrupted (suc k) rcs s = submit_with-interrupted k rcs s

  submit_with-refused :
      (n : ℕ) (more : List ℤ) (s : Amb q)
      → n ≢ 3
      → submit_with (negsuc n ∷ more) s
        ≡ raised (failure "waitCqe" (int (negsuc n) ∷ [])) (record s { submissions = more })
  unfolding submit_with
  submit_with-refused n more s h = ground arith

  -- What getSqe leaves where it returns and where it throws, if `rc` is the result of the submission
  abbrev pub Prepared : Op → ℤ → Amb q → Run (Amb q) (Unit {0}) → Type 0
  Prepared op rc s (ok a t) =
      (entries t ≡ op ∷ entries s) × (length t.queued ≤ sub_q) × (t.requests ≡ s.requests)
  Prepared op rc s (raised e t) =
      (entries t ≡ entries s)
      × (t.requests ≡ s.requests)
      × (length s.queued ≡ sub_q)
      × (((rc ≡ pos 0) × (e ≡ failure "getSqe" []))
          ⊎ ((n : ℕ) × (rc ≡ negsuc n) × (e ≡ failure "waitCqe" (int rc ∷ []))))
  Prepared op rc s fault = ⊥

  -- An entry is handed out on top of a state with room, which has the entries of the state before.
  abbrev pub Handed : ℤ → Amb q → Run (Amb q) (Unit {0}) → Type 0
  Handed rc s (ok a t) =
      (u : Amb q) × (t ≡ record u { queued = nop ∷ u.queued })
      × (entries u ≡ entries s)
      × (length u.queued < sub_q)
      × (u.requests ≡ s.requests)
  Handed rc s (raised e t) = Prepared nop rc s (raised e t)
  Handed rc s fault = ⊥

  get_sqe-room :
      (s : Amb q)
      → length s.queued < sub_q
      → get_sqe s ≡ ok tt (record s { queued = nop ∷ s.queued })
  unfolding get_sqe
  get_sqe-room s h = rw (lt→ltb (length s.queued) sub_q h) refl

  get_sqe-full :
      (s : Amb q) → sub_q ≤ length s.queued → get_sqe s ≡ bind (submit_batch s) (λ _. get_sqe_done)
  unfolding get_sqe
  get_sqe-full s h = ground arith

  get_sqe_done-room :
      (s : Amb q)
      → length s.queued < sub_q
      → get_sqe_done s ≡ ok tt (record s { queued = nop ∷ s.queued })
  unfolding get_sqe_done
  get_sqe_done-room s h = rw (lt→ltb (length s.queued) sub_q h) refl

  get_sqe_done-full :
      (s : Amb q) → sub_q ≤ length s.queued → get_sqe_done s ≡ raised (failure "getSqe" []) s
  unfolding get_sqe_done
  get_sqe_done-full s h = ground arith

  -- The submission of a full queue, by its result
  retried :
      (rc : ℤ) (more : List ℤ) (s : Amb q)
      → length s.queued ≡ sub_q
      → rc ≢ negsuc 3
      → Handed rc s (bind (submit_with (rc ∷ more) s) (λ _. get_sqe_done))
  unfolding submit_with taken
  retried (pos zero) more s full h =
      let u = record (taken 0 s) { submissions = more } in
      subst (Handed (pos 0) s)
        (sym (get_sqe_done-full u (omega (arith, length-take (length s.queued - 0) s.queued))))
        (taken-entries 0 s, refl, full, inl (refl, refl))
  retried (pos (suc n)) more s full h =
      let u = record (taken (suc n) s) { submissions = more } in
      let room : length u.queued < sub_q =
        omega (arith, length-take (length s.queued - suc n) s.queued) in
      subst (Handed (pos (suc n)) s) (sym (get_sqe_done-room u room))
        (u, refl, taken-entries (suc n) s, room, refl)
  retried (negsuc n) more s full h =
      subst (λ r. Handed (negsuc n) s (bind r (λ _. get_sqe_done)))
        (sym (submit_with-refused n more s (λ e. h (ap negsuc e))))
        (refl, refl, full, inr (n, refl, refl))

  submit_batch-answered :
      (k : ℕ) (rcs : List ℤ) (s : Amb q)
      → s.submissions ≡ interrupted k ++ rcs
      → submit_batch s ≡ submit_with rcs s
  unfolding submit_batch
  submit_batch-answered k rcs s e = ap (λ t. submit_with t s) e ∙ submit_with-interrupted k rcs s

  get_sqe-Handed :
      (k : ℕ) (rc : ℤ) (more : List ℤ) (s : Amb q)
      → length s.queued ≤ sub_q
      → rc ≢ negsuc 3
      → s.submissions ≡ interrupted k ++ (rc ∷ more)
      → Handed rc s (get_sqe s)
  get_sqe-Handed k rc more s h final coming = elim (dec_le sub_q (length s.queued)) [
    | no room ↦
        subst (Handed rc s) (sym (get_sqe-room s (omega arith))) (s, refl, refl, omega arith, refl)
    | yes full ↦
        subst (Handed rc s)
          (sym (
            get_sqe-full s full
            ∙ ap (λ r. bind r (λ _. get_sqe_done)) (submit_batch-answered k (rc ∷ more) s coming)))
          (retried rc more s (omega arith) final)
  ]

  -- If at most 512 entries wait for the kernel, and the calls of io_uring_submit_and_wait to come
  -- are any number that a signal interrupts and then one with the result rc, preparing an
  -- operation either makes it the newest entry, after which at most 512 entries wait, or throws:
  -- getSqe if rc is 0, or waitCqe with rc if it is below 0, and only if exactly 512 entries
  -- waited. In each case all other entries keep their order, and the requests stay as they are.
  pub ring_op-order :
      (op : Op) (k : ℕ) (rc : ℤ) (more : List ℤ) (s : Amb q)
      → length s.queued ≤ sub_q
      → rc ≢ negsuc 3
      → s.submissions ≡ interrupted k ++ (rc ∷ more)
      → Prepared op rc s (ring_op op s)
  unfolding ring_op prep
  ring_op-order op k rc more s h final coming =
      by_run (get_sqe s) (get_sqe-Handed k rc more s h final coming)
    where
      by_run :
          (r : Run (Amb q) (Unit {0})) → Handed rc s r → Prepared op rc s (bind r (λ _. prep op))
      by_run (ok a t) (u, e, same, room, requests) =
          subst (λ t. Prepared op rc s (prep op t)) (sym e)
            (ap (λ es. op ∷ es) same, omega arith, requests)
      by_run (raised e t) kept = kept
      by_run fault none_left = none_left

  -- The next entry is handed out: there is room, or the submission that is to come takes something.
  module _ (k n : ℕ) (more : List ℤ) where
    abbrev pub Ready : Amb q → Type 0
    Ready s =
        (length s.queued < sub_q)
        ⊎ ((length s.queued ≤ sub_q) × (s.submissions ≡ interrupted k ++ (pos (suc n) ∷ more)))

    next_ind-order :
        (s : Amb q)
        → length s.queued ≤ sub_q
        → s.submissions ≡ interrupted k ++ (pos (suc n) ∷ more)
        → (s' : Amb q) × (next_ind s ≡ ok tt s') × (entries s' ≡ entries s) × Ready s'
    unfolding next_ind submit_with taken
    next_ind-order s h coming = elim (Bool-cases (leb 5 s.s2ind)) [
      | inl many ↦ (
        record (taken (suc n) s) { submissions = more; s2ind = 1 },
        rw many (
            ap (λ r. bind r (λ _ s. ok tt (record s { s2ind = 1 })))
              (submit_batch-answered k (pos (suc n) ∷ more) s coming)),
        taken-entries (suc n) s,
        inl (omega (arith, length-take (length s.queued - suc n) s.queued)),
      )
      | inr few ↦ (record s { s2ind = s.s2ind + 1 }, rw few refl, refl, inr (h, coming))
    ]

    get_sqe-order :
        (s : Amb q)
        → Ready s
        → (s' : Amb q) × (get_sqe s ≡ ok tt s') × (entries s' ≡ nop ∷ entries s)
    get_sqe-order s (inl room) = (_, get_sqe-room s room, refl)
    get_sqe-order s (inr (h, coming)) =
        by_run (get_sqe s) refl (get_sqe-Handed k (pos (suc n)) more s h (λ e. cc) coming)
      where
        by_run :
            (r : Run (Amb q) (Unit {0}))
            → get_sqe s ≡ r
            → Handed (pos (suc n)) s r
            → (s' : Amb q) × (get_sqe s ≡ ok tt s') × (entries s' ≡ nop ∷ entries s)
        by_run (ok a t) ran (u, e, same, room, requests) =
            (t, ran, ap entries e ∙ ap (λ es. nop ∷ es) same)
        by_run (raised x t) ran (same, requests, full, inl (zero_taken, _)) = absurd (cc)
        by_run (raised x t) ran (same, requests, full, inr (m, below, _)) = absurd (cc)
        by_run fault ran none_left = absurd none_left

    -- A message that front::marshal refuses leaves its entry empty.
    pub ring_sendto-blank :
        (so : Socky) (ts : List (List ℕ)) (s : Amb q) (e : Failure)
        → length s.queued ≤ sub_q
        → s.submissions ≡ interrupted k ++ (pos (suc n) ∷ more)
        → ((s : Amb q) → front_message ts s ≡ raised e s)
        → (s' : Amb q) × (ring_sendto so ts s ≡ raised e s') × (entries s' ≡ nop ∷ entries s)
    unfolding ring_sendto
    ring_sendto-blank so ts s e room coming h =
        let (s1, one, same, ready) = next_ind-order s room coming in
        let (s2, two, more_now) = get_sqe-order s1 ready in
        (s2, rw (one, two, h s2) refl, more_now ∙ ap (λ t. nop ∷ t) same)
