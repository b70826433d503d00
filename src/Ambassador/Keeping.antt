-- ===== src/Ambassador/Keeping.antt =====
-- What cmwRequest does leaves the requests as they are, however it ends.

use onwards.Prelude.{
  String, ℕ, zero, suc, ◌+◌, ◌≡◌, refl, List, [], ◌∷◌, ℤ, ltb_ℤ, ltb, Bool, true, false, Bool-cases,
  if◌then◌else◌, ◌∙◌, inl, inr, Option, none, some, ◌||◌, narrow, int32,
}
use onwards.Failure.{M, Run, ok, raised, fault, rethrow, raise, Arg, codes}
use onwards.MarshallingInt.{MarshallingInt}
use onwards.FixedString.{FixedString, bytes_available}
use onwards.FileBuffer.{FileBuffer, Block, bytes, failed, getline}
use onwards.Compressed.{Quicklz}
use onwards.Ambassador.{
  Amb, CmwRequest, attempt, from_run, Socky, World, Stat, found, missing, Dot, empty, unreadable,
  time,
}
use onwards.Ambassador.Request.{
  read_in, receive_file, marshal_named, marshal_newer, marshal_file, marshal_files, marshal_request,
  marshal_generate, read_dot, open_last, split_path, find_files, accept, file_name, c_string,
  starts, save_request,
}
use mathlib.Core.Path.{subst}
use onwards.Ambassador.Ring.{ring_save_output, ring_sendto}
use onwards.Ambassador.Loop.{marshal_sent, answer, answered}
use onwards.Ambassador.Keeps.{
  After, Keeps, >>=-Keeps, >>-Keeps, return-Keeps, on_buf-Keeps, on_out-Keeps, ring_op-Keeps,
  ring_send-Keeps, from_outcome-Keeps, get_sqe-Keeps, prep-Keeps, on_in-Keeps, ring_sendto-Keeps,
}

if-Keeps {ℓ} :
    {q : Quicklz} {A : Type ℓ} (b : Bool) {m n : M (Amb q) A}
    → Keeps m
    → Keeps n
    → Keeps (if b then m else n)
if-Keeps true h k = h
if-Keeps false h k = k

pub raise-Keeps {ℓ} :
    {q : Quicklz} {A : Type ℓ} (t : String) (ts : List Arg) → Keeps {q = q} {A = A} (raise t ts)
raise-Keeps t ts = record { kept = λ s. refl }

from_run-Keeps :
    {q : Quicklz} {S A B : Type 0} (r : Run S A) (f : A → S → M (Amb q) B)
    → ((a : A) (t : S) → Keeps (f a t))
    → Keeps (from_run r f)
unfolding from_run
from_run-Keeps (ok a t) f h = record { kept = λ s. (h a t).kept s }
from_run-Keeps (raised e t) f h = record { kept = λ s. refl }
from_run-Keeps fault f h = record { kept = λ s. tt }

module _ {q : Quicklz} (w : World) where
  read_in-Keeps : (i : ℤ) (fd : ℕ) (b : Block) → Keeps {q = q} (read_in w i fd b)
  unfolding read_in
  read_in-Keeps i fd (bytes []) = record { kept = λ s. refl }
  read_in-Keeps i fd (bytes (c ∷ cs)) = >>-Keeps (on_out-Keeps _) (return-Keeps fd)
  read_in-Keeps i fd (failed e) = record { kept = λ s. refl }

  receive_file-Keeps : (nm : List ℕ) (sz : ℤ) → Keeps {q = q} (receive_file w nm sz)
  unfolding receive_file
  receive_file-Keeps nm sz = >>-Keeps (on_out-Keeps _) (
      >>=-Keeps (from_outcome-Keeps _)
        (λ fd. >>=-Keeps (on_out-Keeps _) (λ i. read_in-Keeps i _ _)))

  marshal_named-Keeps :
      (name : List ℕ) (size : ℤ) (file : Option (List ℕ))
      → Keeps {q = q} (marshal_named w name size file)
  unfolding marshal_named
  marshal_named-Keeps name size none = record { kept = λ s. tt }
  marshal_named-Keeps name size (some file) = >>-Keeps (on_out-Keeps _) (
      >>=-Keeps (receive_file-Keeps name size)
        (λ fd. >>-Keeps (ring_op-Keeps _) (return-Keeps true)))

  marshal_newer-Keeps : (name : List ℕ) (st : Stat) → Keeps {q = q} (marshal_newer w name st)
  unfolding marshal_newer
  marshal_newer-Keeps name (missing errno) = record { kept = λ s. refl }
  marshal_newer-Keeps name (found mtime size) = record {
    kept = λ s. elim (Bool-cases (ltb_ℤ s.prev_time mtime)) [
      | inl newer ↦
          rw newer ((marshal_named-Keeps name (narrow int32 size) (file_name name)).kept s)
      | inr older ↦ rw older refl
    ];
  }

  marshal_files-Keeps :
      (fuel : ℕ) (f : FileBuffer) (updated : ℕ) → Keeps {q = q} (marshal_files w fuel f updated)
  unfolding marshal_files marshal_file
  marshal_files-Keeps zero f updated = record { kept = λ s. tt }
  marshal_files-Keeps (suc fuel) f updated = from_run-Keeps (getline b'\n' f) _ λ line g.
      if-Keeps (starts (codes "//") (c_string line) || starts (codes "define") (c_string line))
        (marshal_files-Keeps fuel g updated)
        (if-Keeps (starts (codes "--") (c_string line)) (return-Keeps updated) (
          >>=-Keeps (marshal_newer-Keeps (c_string line) (w.stat (c_string line)))
            (λ newer. marshal_files-Keeps fuel g (if newer then (updated + 1) else updated))))

  marshal_request-Keeps : (fuel : ℕ) (r : CmwRequest) → Keeps {q = q} (marshal_request w fuel r)
  unfolding marshal_request marshal_file
  marshal_request-Keeps fuel r = >>-Keeps (on_out-Keeps _) (
      >>=-Keeps (on_out-Keeps _) (λ ind. >>=-Keeps (marshal_newer-Keeps r.mdl_file _) (λ res.
        >>-Keeps (>>-Keeps (if-Keeps res (return-Keeps tt) (on_out-Keeps _)) (on_out-Keeps _)) (
          >>=-Keeps (on_out-Keeps _) (λ idx. >>=-Keeps (from_outcome-Keeps _) (λ fd.
            >>=-Keeps (marshal_files-Keeps fuel _ 0)
              (λ updated. >>-Keeps (on_out-Keeps _) (ring_op-Keeps _))))))))

  rethrow-After :
      {A : Type 0} (rs : List CmwRequest) (h : Amb q → Amb q) (r : Run (Amb q) A)
      → ((s : Amb q) → (h s).requests ≡ s.requests)
      → After rs r
      → After rs (rethrow h r)
  rethrow-After rs h (ok a s) k e = e
  rethrow-After rs h (raised x s) k e = k s ∙ e
  rethrow-After rs h fault k e = tt

  marshal_generate-Keeps : (fuel : ℕ) (r : CmwRequest) → Keeps {q = q} (marshal_generate w fuel r)
  unfolding marshal_generate
  marshal_generate-Keeps fuel r = record {
    kept = λ s.
        rethrow-After s.requests _ _ (λ t. refl)
          ((>>-Keeps (>>-Keeps (on_out-Keeps _) (marshal_request-Keeps fuel r))
              (on_out-Keeps _)).kept
            s);
  }

  pub marshal_sent-Keeps : (fuel : ℕ) (r : CmwRequest) → Keeps {q = q} (marshal_sent w fuel r)
  unfolding marshal_sent
  marshal_sent-Keeps fuel r =
      >>-Keeps (>>-Keeps (marshal_generate-Keeps fuel r) (on_buf-Keeps _)) ring_send-Keeps

  read_dot-Keeps : (d : Dot) → Keeps {q = q} (read_dot w d)
  unfolding read_dot
  read_dot-Keeps empty = record { kept = λ s. refl }
  read_dot-Keeps (unreadable e) = record { kept = λ s. refl }
  read_dot-Keeps (time t) = record { kept = λ s. refl }

  open_last-Keeps :
      (ft : Socky) (acct : MarshallingInt) (path : FixedString) (dir file : List ℕ) (r : Option ℕ)
      → Keeps {q = q} (open_last w ft acct path dir file r)
  unfolding open_last
  open_last-Keeps ft acct path dir file (some e) = record { kept = λ s. refl }
  open_last-Keeps ft acct path dir file none =
      >>=-Keeps (from_outcome-Keeps _) (λ fd. >>-Keeps (read_dot-Keeps _) (return-Keeps _))

  split_path-Keeps :
      (ft : Socky) (acct : MarshallingInt) (path : FixedString) (r : Option (List ℕ × List ℕ))
      → Keeps {q = q} (split_path w ft acct path r)
  unfolding split_path
  split_path-Keeps ft acct path none = record { kept = λ s. refl }
  split_path-Keeps ft acct path (some (dir, file)) = open_last-Keeps ft acct path dir file _

  pub accept-Keeps : (ft : Socky) (span : List ℕ) → Keeps {q = q} (accept w ft span)
  unfolding accept find_files
  accept-Keeps ft span = from_run-Keeps _ _ λ m b.
      if-Keeps (ltb (bytes_available (m.1)) 3) (raise-Keeps _ _) (split_path-Keeps ft (m.0) (m.1) _)

  ring_save_output-Keeps :
      (fd : ℕ) (bday : ℤ) (nam : List ℕ) → Keeps {q = q} (ring_save_output w fd bday nam)
  unfolding ring_save_output
  ring_save_output-Keeps fd bday nam =
      >>-Keeps (>>-Keeps (>>-Keeps get_sqe-Keeps (prep-Keeps _)) get_sqe-Keeps) (
        >>=-Keeps (from_outcome-Keeps _) (λ fd2.
          >>=-Keeps (on_in-Keeps _)
            (λ sp. >>-Keeps (>>-Keeps (prep-Keeps _) (ring_op-Keeps _)) (ring_op-Keeps _))))

  save_request-Keeps : (r : CmwRequest) → Keeps {q = q} (save_request w r)
  unfolding save_request
  save_request-Keeps r = from_run-Keeps _ _ (λ _ path. ring_save_output-Keeps _ _ _)

  answer-Keeps : (r : CmwRequest) → Keeps {q = q} (answer w r)
  unfolding answer
  answer-Keeps r = >>-Keeps (ring_op-Keeps _) (
      >>=-Keeps (on_buf-Keeps _) (λ more. >>=-Keeps (on_in-Keeps _) (λ good.
        if-Keeps good (>>-Keeps (save_request-Keeps r) (ring_sendto-Keeps _ _))
          (>>=-Keeps (on_in-Keeps _) (λ s. ring_sendto-Keeps _ _)))))

  pub answered-Keeps : (r : CmwRequest) → Keeps {q = q} (answered w r)
  unfolding answered
  answered-Keeps r = record {
    kept = λ s. by_run s.requests (answer w r s) ((answer-Keeps r).kept s);
  }
    where
      by_run :
          (rs : List CmwRequest) (m : Run (Amb q) (Unit {0}))
          → After rs m
          → After rs (attempt m (λ e. ring_sendto r.frnt (e.st ∷ [])))
      by_run rs (ok a t) h = h
      by_run rs (raised x t) h =
          subst (λ u. After u (ring_sendto r.frnt (x.st ∷ []) t)) h
            ((ring_sendto-Keeps r.frnt (x.st ∷ [])).kept t)
      by_run rs fault h = tt
