-- ===== src/Ambassador.antt =====
-- src/tiers/cmwAmb.cc (of which src/tiers/cmwA.cc is a copy): what the middle tier keeps. `queued`
-- are the entries that are handed out and not yet taken by the kernel, `submitted` those that it has
-- taken, each with the newest first.
pub mod Ring
pub mod Request
pub mod Login
pub mod Config
pub mod Launch
pub mod Loop
pub mod Order
pub mod Replies
pub mod Vanished
pub mod Newest
pub mod Popping
pub mod Keeps
pub mod Keeping
pub mod Accepting
use onwards.Prelude.{
  ℕ, zero, suc, List, [], ◌∷◌, ◌++◌, ℤ, pos, Bool, true, false, Option, none, some, length, ltb,
  if◌then◌else◌, ◌≡◌,
}
use onwards.Failure.{M, Run, ok, raised, fault, bind, ◌>>◌, ◌>>=◌, return, Failure}
use onwards.SendBuffer.{SendBuffer}
use onwards.ReceiveBuffer.{ReceiveBuffer}
use onwards.MarshallingInt.{MarshallingInt}
use onwards.FixedString.{FixedString}
use onwards.Compressed.{Quicklz, BufferCompressed}
use onwards.Io.{Reply}
use onwards.FileBuffer.{Block}

-- The address of a front tier
pub record Socky : Type 0 where
  pub addr : ℕ
  pub len : ℕ

-- What the entries of the submission queue ask for. An entry that nothing is written to is all
-- zeros: an operation that does nothing, with the user data of Recvmsg.
pub data Op : Type 0 where
  nop recvmsg recv9 : Op
  send : List ℕ → Op
  recv : (offset len : ℤ) → Op
  close : ℤ → Op
  save : (fd bday : ℤ) → Op
  save_output : ℤ → List ℕ → Op
  fsync : ℤ → Op
  sendto : List ℕ → Socky → Op

-- class cmwRequest. `mdl_file` is what mdlFile points to.
pub record CmwRequest : Type 0 where
  pub frnt : Socky
  pub bday : ℤ
  pub acct_nbr : MarshallingInt
  pub path : FixedString
  pub mdl_file : List ℕ
  pub dotfd : ℕ

-- struct Credentials
pub record Credentials : Type 0 where
  pub ambass_id : List ℕ
  pub password : FixedString

-- The ring with its buffer, the requests, prevTime, and one more than the index s2ind. `submissions`
-- are the results of the calls of io_uring_submit_and_wait to come, `notified` the datagrams that
-- frntBuf has sent.
pub record Amb (q : Quicklz) : Type 0 where
  pub cmw_buf : BufferCompressed q
  pub submitted : List Op
  pub queued : List Op
  pub submissions : List ℤ
  pub sent_bytes : ℤ
  pub bufs_used : ℕ
  pub requests : List CmwRequest
  pub prev_time : ℤ
  pub s2ind : ℕ
  pub notified : List (Socky × List ℕ)

-- What stat, and the read of prevTime, come to.
pub data Stat : Type 0 where
  found : (mtime size : ℤ) → Stat
  missing : ℕ → Stat

pub data Dot : Type 0 where
  empty : Dot
  unreadable : ℕ → Dot
  time : ℤ → Dot

-- What the system answers while one completion is handled.
pub record World : Type 0 where
  pub now : ℤ
  pub chdir : List ℕ → Option ℕ
  pub stat : List ℕ → Stat
  pub opened : List ℕ → Reply
  pub contents : List ℕ → Block
  pub blocks : List ℕ → List Block
  pub dot : List ℕ → Dot
  pub sent : Socky → Reply
  pub new_sock : ℤ
  pub writes : List Reply
  pub registered : Bool
  pub header : Option (List ℕ)
  pub body : Option (List ℕ)

-- A call on a part of the state.
abbrev pub put_back {ℓ} : {S : Type 0} {T : Type 0} {A : Type ℓ} → (S → T) → Run S A → Run T A
put_back f (ok a s) = ok a (f s)
put_back f (raised e s) = raised e (f s)
put_back f fault = fault

-- A call on an object that is not part of the state, and what follows when it returns.
unfoldable pub from_run {ℓ κ} :
    {q : Quicklz} {S : Type 0} {A : Type ℓ} {B : Type κ}
    → Run S A
    → (A → S → M (Amb q) B)
    → M (Amb q) B
from_run (ok a t) f s = f a t s
from_run (raised e t) f s = raised e s
from_run fault f s = fault

module _ {ℓ} {q : Quicklz} {A : Type ℓ} where
  unfoldable pub on_buf : M (BufferCompressed q) A → M (Amb q) A
  on_buf m s = put_back (λ b. record s { cmw_buf = b }) (m s.cmw_buf)

  unfoldable pub on_out : M SendBuffer A → M (Amb q) A
  on_out m s =
      put_back (λ b. record s { cmw_buf = record (s.cmw_buf) { out = b } }) (m s.cmw_buf.out)

  unfoldable pub on_in : M ReceiveBuffer A → M (Amb q) A
  on_in m s =
      put_back (λ b. record s { cmw_buf = record (s.cmw_buf) { inp = b } }) (m s.cmw_buf.inp)

  -- `try m catch(::std::exception& e){handler}`
  abbrev pub attempt : Run (Amb q) A → (Failure → M (Amb q) A) → Run (Amb q) A
  attempt (ok a s) h = ok a s
  attempt (raised e s) h = h e s
  attempt fault h = fault
