-- ===== src/Ambassador/Keeps.antt =====
-- Calls that leave the requests as they are, however they end.
use mathlib.Core.Path.{subst}
use onwards.Prelude.{
  Bool-cases, ltb, leb, length, ℕ, ◌≡◌, refl, List, [], ◌∷◌, ℤ, pos, negsuc, ◌==◌, inl, inr,
}
use onwards.Failure.{M, Run, ok, raised, fault, bind, ◌>>=◌, ◌>>◌, return}
use onwards.SendBuffer.{SendBuffer}
use onwards.ReceiveBuffer.{ReceiveBuffer}
use onwards.Compressed.{Quicklz, BufferCompressed}
use onwards.Ambassador.{Amb, CmwRequest, Op, on_buf, on_out, on_in, put_back, Socky}
use onwards.Ambassador.Ring.{
  taken, submit_with, submit_batch, get_sqe_done, get_sqe, prep, ring_op, ring_send, from_outcome,
  message_of, front_message, next_ind, ring_sendto,
}
use onwards.Uring.{sub_q}
use onwards.Io.{Outcome, returned, threw, waiting}

abbrev pub After {ℓ} : {q : Quicklz} {A : Type ℓ} → List CmwRequest → Run (Amb q) A → Type 0
After rs (ok a s) = s.requests ≡ rs
After rs (raised e s) = s.requests ≡ rs
After rs fault = Unit

pub record Keeps {ℓ} {q : Quicklz} {A : Type ℓ} (m : M (Amb q) A) : Type ℓ where
  pub kept : (s : Amb q) → After s.requests (m s)

pub bind-After {ℓ κ} :
    {q : Quicklz} {A : Type ℓ} {B : Type κ} (rs : List CmwRequest) (r : Run (Amb q) A)
    (f : A → M (Amb q) B)
    → After rs r
    → ((a : A) → Keeps (f a))
    → After rs (bind r f)
bind-After rs (ok a s) f h k = subst (λ t. After t (f a s)) h ((k a).kept s)
bind-After rs (raised e s) f h k = h
bind-After rs fault f h k = tt

pub >>=-Keeps {ℓ κ} :
    {q : Quicklz} {A : Type ℓ} {B : Type κ} {m : M (Amb q) A} {f : A → M (Amb q) B}
    → Keeps m
    → ((a : A) → Keeps (f a))
    → Keeps (m >>= f)
>>=-Keeps {m} {f} h k = record { kept = λ s. bind-After s.requests (m s) f (h.kept s) k }

pub >>-Keeps {κ} :
    {q : Quicklz} {B : Type κ} {m : M (Amb q) (Unit {0})} {n : M (Amb q) B}
    → Keeps m
    → Keeps n
    → Keeps (m >> n)
>>-Keeps {m} {n} h k = record {
  kept = λ s. bind-After s.requests (m s) (λ _. n) (h.kept s) (λ _. k);
}

pub return-Keeps {ℓ} : {q : Quicklz} {A : Type ℓ} (a : A) → Keeps {q = q} (return a)
return-Keeps a = record { kept = λ s. refl }

put_back-After :
    {q : Quicklz} {S A : Type 0} (rs : List CmwRequest) (f : S → Amb q) (r : Run S A)
    → ((b : S) → (f b).requests ≡ rs)
    → After rs (put_back f r)
put_back-After rs f (ok a b) h = h b
put_back-After rs f (raised e b) h = h b
put_back-After rs f fault h = tt

pub on_buf-Keeps : {q : Quicklz} {A : Type 0} (m : M (BufferCompressed q) A) → Keeps (on_buf m)
unfolding on_buf
on_buf-Keeps m = record { kept = λ s. put_back-After s.requests _ _ (λ b. refl) }

pub on_out-Keeps : {q : Quicklz} {A : Type 0} (m : M SendBuffer A) → Keeps {q = q} (on_out m)
unfolding on_out
on_out-Keeps m = record { kept = λ s. put_back-After s.requests _ _ (λ b. refl) }

pub on_in-Keeps : {q : Quicklz} {A : Type 0} (m : M ReceiveBuffer A) → Keeps {q = q} (on_in m)
unfolding on_in
on_in-Keeps m = record { kept = λ s. put_back-After s.requests _ _ (λ b. refl) }

submit_with-Keeps : {q : Quicklz} (rcs : List ℤ) → Keeps {q = q} (submit_with rcs)
unfolding submit_with taken
submit_with-Keeps [] = record { kept = λ s. tt }
submit_with-Keeps (pos n ∷ more) = record { kept = λ s. refl }
submit_with-Keeps (negsuc n ∷ more) = record {
  kept = λ s. elim (Bool-cases (n == 3)) [
    | inl again ↦ rw again ((submit_with-Keeps more).kept s)
    | inr other ↦ rw other refl
  ];
}

submit_batch-Keeps : {q : Quicklz} → Keeps {q = q} submit_batch
unfolding submit_batch
submit_batch-Keeps = record { kept = λ s. (submit_with-Keeps s.submissions).kept s }

get_sqe_done-Keeps : {q : Quicklz} → Keeps {q = q} get_sqe_done
unfolding get_sqe_done
get_sqe_done-Keeps = record {
  kept = λ s. elim (Bool-cases (ltb (length s.queued) sub_q)) [
    | inl room ↦ rw room refl
    | inr full ↦ rw full refl
  ];
}

pub get_sqe-Keeps : {q : Quicklz} → Keeps {q = q} get_sqe
unfolding get_sqe
get_sqe-Keeps = record {
  kept = λ s. elim (Bool-cases (ltb (length s.queued) sub_q)) [
    | inl room ↦ rw room refl
    | inr full ↦ rw full (
        bind-After s.requests (submit_batch s) (λ _. get_sqe_done) (submit_batch-Keeps.kept s)
          (λ _. get_sqe_done-Keeps))
  ];
}

pub prep-Keeps : {q : Quicklz} (op : Op) → Keeps {q = q} (prep op)
unfolding prep
prep-Keeps op = record { kept = λ s. refl }

pub ring_op-Keeps : {q : Quicklz} (op : Op) → Keeps {q = q} (ring_op op)
unfolding ring_op
ring_op-Keeps op = >>-Keeps get_sqe-Keeps (prep-Keeps op)

pub ring_send-Keeps : {q : Quicklz} → Keeps {q = q} ring_send
unfolding ring_send
ring_send-Keeps = >>-Keeps get_sqe-Keeps (>>=-Keeps (on_buf-Keeps _) (λ sp. prep-Keeps _))

pub from_outcome-Keeps : {q : Quicklz} {A : Type 0} (o : Outcome A) → Keeps {q = q} (from_outcome o)
unfolding from_outcome
from_outcome-Keeps (returned a) = record { kept = λ s. refl }
from_outcome-Keeps (threw e closed) = record { kept = λ s. refl }
from_outcome-Keeps waiting = record { kept = λ s. tt }

message_of-Keeps : {q : Quicklz} (r : Run SendBuffer (Unit {0})) → Keeps {q = q} (message_of r)
unfolding message_of
message_of-Keeps (ok a b) = record { kept = λ s. refl }
message_of-Keeps (raised e b) = record { kept = λ s. refl }
message_of-Keeps fault = record { kept = λ s. tt }

next_ind-Keeps : {q : Quicklz} → Keeps {q = q} next_ind
unfolding next_ind
next_ind-Keeps = record {
  kept = λ s. elim (Bool-cases (leb 5 s.s2ind)) [
    | inl many ↦ rw many (
        bind-After s.requests (submit_batch s) (λ _ s. ok tt (record s { s2ind = 1 }))
          (submit_batch-Keeps.kept s) (λ _. record { kept = λ s. refl }))
    | inr few ↦ rw few refl
  ];
}

pub ring_sendto-Keeps :
    {q : Quicklz} (so : Socky) (ts : List (List ℕ)) → Keeps {q = q} (ring_sendto so ts)
unfolding ring_sendto front_message
ring_sendto-Keeps so ts =
    >>-Keeps (>>-Keeps next_ind-Keeps get_sqe-Keeps)
      (>>=-Keeps (message_of-Keeps _) (λ sp. prep-Keeps _))
