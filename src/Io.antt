-- ===== src/Io.antt =====
-- src/cmwBuffer.hh: Open, Write, Read and Recv, over the results of the system calls, which are
-- arguments: one for each call that is made.
pub mod Writing
use onwards.Prelude.{
  ℕ, zero, suc, ◌+◌, ◌-◌, List, [], ◌∷◌, ◌++◌, ℤ, pos, Bool, true, false, length, take, drop, ltb,
  ◌==◌, if◌then◌else◌, Option, none, some,
}
use onwards.Failure.{M, raise, Failure, failure, int, text, Arg}

-- A system call returns a positive number, or anything else with an errno.
pub data Reply : Type 0 where
  got : ℕ → Reply
  failed : ℕ → Reply

abbrev pub eintr : ℕ
eintr = 4

-- What a function that calls the system comes to: it returns, it throws, or it waits for a reply
-- that is not there. `closed` says whether it closed the descriptor on the way.
pub data Outcome {ℓ} (A : Type ℓ) : Type ℓ where
  returned : A → Outcome A
  threw : Failure → (closed : Bool) → Outcome A
  waiting : Outcome A

-- setDirectory, where chdir fails
abbrev pub set_directory_failed {ℓ κ} : {S : Type ℓ} {A : Type κ} → List ℕ → ℕ → M S A
set_directory_failed d errno = raise "setDirectory" (text d ∷ int (pos errno) ∷ [])

-- Open: descriptor 0 counts as a failure too.
unfoldable pub open_file : List ℕ → Reply → Outcome ℕ
open_file nm (got zero) = threw (failure "Open" (text nm ∷ int (pos 0) ∷ [])) false
open_file nm (got (suc d)) = returned (suc d)
open_file nm (failed errno) = threw (failure "Open" (text nm ∷ int (pos errno) ∷ [])) false

-- Write: the first component is what the system has taken. `got 0` has an errno that is left from
-- before, taken to be none that says EINTR.
unfoldable pub write_all : Bool → List ℕ → List Reply → List ℕ × Outcome (Unit {0})
write_all do_close bytes [] = ([], waiting)
write_all do_close bytes (got zero ∷ replies) =
    ([], threw (failure "Write" (int (pos 0) ∷ [])) do_close)
write_all do_close bytes (got (suc r) ∷ replies) =
    let (taken, outcome) = write_all do_close (drop (suc r) bytes) replies in
    if length bytes == suc r then (bytes, returned tt) else (take (suc r) bytes ++ taken, outcome)
write_all do_close bytes (failed errno ∷ replies) =
    let again = write_all do_close bytes replies in
    if errno == eintr then again else ([], threw (failure "Write" (int (pos errno) ∷ [])) do_close)

-- Read and Recv: a single call, of which a positive number is the result.
unfoldable pub read_once : Bool → Reply → Outcome ℕ
read_once do_close (got zero) = threw (failure "Read" (int (pos 0) ∷ [])) do_close
read_once do_close (got (suc r)) = returned (suc r)
read_once do_close (failed errno) = threw (failure "Read" (int (pos errno) ∷ [])) do_close

unfoldable pub recv_once : Reply → Outcome ℕ
recv_once (got zero) = threw (failure "Recv" (int (pos 0) ∷ [])) false
recv_once (got (suc r)) = returned (suc r)
recv_once (failed errno) = threw (failure "Recv" (int (pos errno) ∷ [])) false
