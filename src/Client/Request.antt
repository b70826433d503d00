-- ===== src/Client/Request.antt =====
-- The request of the client, as it is sent and as the middle tier reads it: middle::marshal of
-- src/tiers/front/genz.mdl.hh and the members of cmwRequest in src/tiers/cmwAmb.cc.
use onwards.Prelude.{
  ℕ, ◌+◌, ◌^◌, ◌≤◌, ◌<◌, List, ◌++◌, int16, half_range, length, length-append, drop, zeros, arith,
}
use onwards.SendBuffer.Emit.{Emits, >>-Emits}
use onwards.ReceiveBuffer.Window.{>>=-Reads}
use onwards.Failure.{◌>>=◌, return}
use onwards.MarshallingInt.{MarshallingInt, read}
use onwards.MarshallingInt.Encode.{encoding, length-encoding, marshal-Emits}
use onwards.MarshallingInt.Decode.{read-Reads}
use onwards.MarshallingInt.Texts.{receive_text-Emits}
use onwards.FixedString.{receive_from}
use onwards.FixedString.Content.{terminated}
use onwards.FixedString.Travel.{receive_from-Reads}
use onwards.Messages.{mar_middle}
use onwards.Complex.{mapped-Reads}
use onwards.Wire.{Carries}
use onwards.Ambassador.Request.{members}

abbrev pub request_body : MarshallingInt → List ℕ → List ℕ
request_body a path = encoding 4 a.val ++ (encoding 4 (length path) ++ path)

pub length-request_body :
    (a : MarshallingInt) (path : List ℕ) → length (request_body a path) ≤ 10 + length path
length-request_body a path = omega (
  arith,
  length-append (encoding 4 a.val) (encoding 4 (length path) ++ path),
  length-append (encoding 4 (length path)) path,
  (length-encoding 4 a.val).1,
  (length-encoding 4 (length path)).1,
)

pub mar_middle-Emits :
    (a : MarshallingInt) (path : List ℕ)
    → a.val < 2 ^ 32
    → length path < half_range int16
    → Emits int16 (mar_middle a path) (request_body a path)
unfolding mar_middle
mar_middle-Emits a path h l =
    >>-Emits int16 (marshal-Emits int16 a h) (receive_text-Emits int16 path l)

-- The account number, of 32 bits, and the path, of fewer than 120 characters, that the client's
-- middle::marshal writes are those that the members of cmwRequest read, the path with a
-- terminator in an array of 120 bytes that is otherwise zero.
pub mar_middle-Carries :
    (a : MarshallingInt) (path : List ℕ)
    → a.val < 2 ^ 32
    → length path < 120
    → Carries int16
        (mar_middle a path)
        members
        (a, terminated path (drop (length path + 1) (zeros 120)))
unfolding members
mar_middle-Carries a path h l = record {
  bytes = request_body a path;
  emits = mar_middle-Emits a path h (omega arith);
  reads =
      >>=-Reads read (λ acct. receive_from (zeros 120) >>= λ p. return (acct, p)) (encoding 4 a.val)
        (encoding 4 (length path) ++ path) a _ (read-Reads a.val h)
        (mapped-Reads (receive_from (zeros 120)) (λ p. (a, p)) (encoding 4 (length path) ++ path) _
          (receive_from-Reads path (zeros 120) (omega arith) (omega arith)));
}
