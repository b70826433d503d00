-- ===== src/Ambassador/Newest.antt =====
-- The newest entries that a call leaves, if it returns (getSqe, close and sendto of class ioUring in
-- src/tiers/cmwAmb.cc)
use mathlib.Core.Path.{subst}
use onwards.Prelude.{
  ℕ, ◌≡◌, refl, sym, List, [], ◌∷◌, ◌++◌, pos, negsuc, ℤ, ◌==◌, int16, zeros, ap, Bool-cases, inl,
  inr, ltb, length,
}
use onwards.Failure.{M, Run, ok, raised, fault, bind, ◌>>◌, ◌>>=◌}
use onwards.SendBuffer.{SendBuffer, out_duo, init}
use onwards.Messages.{front_marshal}
use onwards.Compressed.{Quicklz}
use onwards.Uring.{sub_q, udp_packet_max}
use onwards.Ambassador.{Amb, CmwRequest, Op, nop, sendto, Socky}
use onwards.Ambassador.Ring.{
  submit_with, submit_batch, get_sqe_done, get_sqe, prep, ring_op, front_message, message_of,
  next_ind, ring_sendto,
}
use onwards.Ambassador.Login.{Step}
use onwards.Ambassador.Order.{entries, taken-entries}
use onwards.Ambassador.Keeps.{After}

-- What holds of the state that a call leaves, if it returns
abbrev pub Returns {ℓ} : {q : Quicklz} {A : Type ℓ} → (Amb q → Type 0) → Run (Amb q) A → Type 0
Returns P (ok a s) = P s
Returns P (raised e s) = Unit
Returns P fault = Unit

pub bind-Returns {ℓ κ} :
    {q : Quicklz} {A : Type ℓ} {B : Type κ} (P : Amb q → Type 0) (r : Run (Amb q) A)
    (f : A → M (Amb q) B)
    → ((a : A) (s : Amb q) → Returns P (f a s))
    → Returns P (bind r f)
bind-Returns P (ok a s) f h = h a s
bind-Returns P (raised e s) f h = tt
bind-Returns P fault f h = tt

-- The newest entry sends a message that front::marshal has made of some texts.
abbrev pub Informs : Socky → List Op → Type 0
Informs so es =
    (texts : List (List ℕ)) × (made : SendBuffer) × (older : List Op) × (front_marshal
        udp_packet_max texts 0 (init int16 (zeros udp_packet_max) (pos udp_packet_max))
      ≡ ok tt made)
    × (es ≡ sendto (out_duo made) so ∷ older)

module _ {q : Quicklz} where
  -- The newest entry is one that nothing is written to yet.
  abbrev Blank : Amb q → Type 0
  Blank s = (os : List Op) × (s.queued ≡ nop ∷ os)

  get_sqe_done-Blank : (s : Amb q) → Returns Blank (get_sqe_done s)
  unfolding get_sqe_done
  get_sqe_done-Blank s = elim (Bool-cases (ltb (length s.queued) sub_q)) [
    | inl room ↦ rw room (s.queued, refl)
    | inr full ↦ rw full tt
  ]

  get_sqe-Blank : (s : Amb q) → Returns Blank (get_sqe s)
  unfolding get_sqe
  get_sqe-Blank s = elim (Bool-cases (ltb (length s.queued) sub_q)) [
    | inl room ↦ rw room (s.queued, refl)
    | inr full ↦
        rw full (bind-Returns Blank (submit_batch s) (λ _. get_sqe_done) (λ _. get_sqe_done-Blank))
  ]

  prep-newest :
      (op : Op) (s : Amb q)
      → Blank s
      → Returns (λ t. (older : List Op) × (entries t ≡ op ∷ older)) (prep op s)
  unfolding prep
  prep-newest op s (os, e) =
      subst
        (λ queued.
          Returns (λ t. (older : List Op) × (entries t ≡ op ∷ older))
            (prep op (record s { queued = queued })))
        (sym e) (os ++ s.submitted, refl)

  marshalled :
      (so : Socky) (texts : List (List ℕ)) (m : Run SendBuffer (Unit {0}))
      → front_marshal udp_packet_max texts 0
          (init int16 (zeros udp_packet_max) (pos udp_packet_max))
        ≡ m
      → (s : Amb q) → Blank s
      → Returns (λ t. Informs so (entries t)) (bind (message_of m s) (λ sp. prep (sendto sp so)))
  unfolding message_of prep
  marshalled so texts (ok a b) made s blank =
      let (older, newest) = prep-newest (sendto (out_duo b) so) s blank in
      (texts, b, older, made, newest)
  marshalled so texts (raised e b) made s blank = tt
  marshalled so texts fault made s blank = tt

  pub then_Returns :
      (P Q : Amb q → Type 0) (r : Run (Amb q) (Unit {0})) (f : M (Amb q) (Unit {0}))
      → Returns P r
      → ((s : Amb q) → P s → Returns Q (f s))
      → Returns Q (bind r (λ _. f))
  then_Returns P Q (ok a s) f h k = k s h
  then_Returns P Q (raised e s) f h k = tt
  then_Returns P Q fault f h k = tt

  pub ring_sendto-Informs :
      (so : Socky) (texts : List (List ℕ)) (s : Amb q)
      → Returns (λ t. Informs so (entries t)) (ring_sendto so texts s)
  unfolding ring_sendto front_message
  ring_sendto-Informs so texts s =
      then_Returns Blank (λ t. Informs so (entries t)) ((next_ind >> get_sqe) s)
        (front_message texts >>= λ sp. prep (sendto sp so))
        (bind-Returns Blank (next_ind s) (λ _. get_sqe) (λ _. get_sqe-Blank))
        (λ t blank. marshalled so texts _ refl t blank)

  submit_with-entries :
      (rcs : List ℤ) (s : Amb q) → Returns (λ t. entries t ≡ entries s) (submit_with rcs s)
  unfolding submit_with
  submit_with-entries [] s = tt
  submit_with-entries (pos n ∷ more) s = taken-entries n s
  submit_with-entries (negsuc n ∷ more) s = elim (Bool-cases (n == 3)) [
    | inl again ↦ rw again (submit_with-entries more s)
    | inr other ↦ rw other tt
  ]

  -- An entry is handed out on top of those that were there.
  abbrev pub OnTop : Amb q → Amb q → Type 0
  OnTop s t = (u : Amb q) × (t ≡ record u { queued = nop ∷ u.queued }) × (entries u ≡ entries s)

  get_sqe_done-OnTop : (s u : Amb q) → entries u ≡ entries s → Returns (OnTop s) (get_sqe_done u)
  unfolding get_sqe_done
  get_sqe_done-OnTop s u e = elim (Bool-cases (ltb (length u.queued) sub_q)) [
    | inl room ↦ rw room (u, refl, e)
    | inr full ↦ rw full tt
  ]

  pub get_sqe-OnTop : (s : Amb q) → Returns (OnTop s) (get_sqe s)
  unfolding get_sqe submit_batch
  get_sqe-OnTop s = elim (Bool-cases (ltb (length s.queued) sub_q)) [
    | inl room ↦ rw room (s, refl, refl)
    | inr full ↦ rw full (
        then_Returns (λ u. entries u ≡ entries s) (OnTop s) (submit_batch s) get_sqe_done
          (submit_with-entries s.submissions s) (get_sqe_done-OnTop s))
  ]

  prep-OnTop :
      (op : Op) (s t : Amb q) → OnTop s t → Returns (λ t. entries t ≡ op ∷ entries s) (prep op t)
  unfolding prep
  prep-OnTop op s t (u, e, same) =
      subst (λ t. Returns (λ t. entries t ≡ op ∷ entries s) (prep op t)) (sym e)
        (ap (λ es. op ∷ es) same)

  pub ring_op-OnTop :
      (op : Op) (s : Amb q) → Returns (λ t. entries t ≡ op ∷ entries s) (ring_op op s)
  unfolding ring_op
  ring_op-OnTop op s =
      then_Returns (OnTop s) (λ t. entries t ≡ op ∷ entries s) (get_sqe s) (prep op)
        (get_sqe-OnTop s) (prep-OnTop op s)

  pub both_Returns :
      (P Q : Amb q → Type 0) (r : Run (Amb q) (Unit {0}))
      → Returns P r
      → Returns Q r
      → Returns (λ s. P s × Q s) r
  both_Returns P Q (ok a s) h k = (h, k)
  both_Returns P Q (raised e s) h k = tt
  both_Returns P Q fault h k = tt

  pub After-Returns :
      (rs : List CmwRequest) (r : Run (Amb q) (Unit {0}))
      → After rs r
      → Returns (λ s. s.requests ≡ rs) r
  After-Returns rs (ok a s) h = h
  After-Returns rs (raised e s) h = tt
  After-Returns rs fault h = tt

  -- The result of a call with its step
  abbrev pub Leaves : (Step → Amb q → Type 0) → Run (Amb q) Step → Type 0
  Leaves P (ok step s) = P step s
  Leaves P (raised e s) = Unit
  Leaves P fault = Unit

  pub then_Leaves :
      (P : Amb q → Type 0) (Q : Step → Amb q → Type 0) (r : Run (Amb q) (Unit {0}))
      (f : M (Amb q) Step)
      → Returns P r
      → ((s : Amb q) → P s → Leaves Q (f s))
      → Leaves Q (bind r (λ _. f))
  then_Leaves P Q (ok a s) f h k = k s h
  then_Leaves P Q (raised e s) f h k = tt
  then_Leaves P Q fault f h k = tt
