-- ===== src/Failure.antt =====
-- src/cmwBuffer.hh: class Failure, apps, raise and fromChars, and what a call can come to.
-- A text is the list of its bytes.
use Prim.Native.Char.{code}
use Prim.Native.String.{String}
use onwards.Prelude.{
  ℕ, zero, suc, ◌+◌, ◌-◌, ◌*◌, ◌/◌, ◌%◌, ◌≡◌, refl, Bool, ◌&&◌, List, [], ◌∷◌, ◌++◌, ℤ, pos, negsuc,
  leb, ltb, ◌==◌, if◌then◌else◌, Option, none, some,
}

-- The bytes of a literal of the source.
abbrev pub codes : String → List ℕ
codes String.[] = []
codes (String.◌∷◌ c s) = code c ∷ codes s

-- The text that the exception carries.
pub record Failure : Type 0 where
  pub st : List ℕ

-- What `apps` passes on to `operator<<`.
pub data Arg : Type 0 where
  text : List ℕ → Arg
  int : ℤ → Arg

-- ::std::to_chars in base ten; a number below 10 ^ fuel has at most `fuel` digits.
unfoldable pub digits : ℕ → ℕ → List ℕ
digits zero n = []
digits (suc fuel) n =
    let more = digits fuel (n / 10) ++ ((n % 10 + b'0') ∷ []) in
    if ltb n 10 then (n + b'0') ∷ [] else more

-- An int64_t has at most 19 digits.
unfoldable pub to_chars : ℤ → List ℕ
unfolding digits
to_chars (pos n) = digits 19 n
to_chars (negsuc n) = b'-' ∷ digits 19 (n + 1)

-- `e << t`: a blank, then the text.
unfoldable pub append : Failure → Arg → Failure
unfolding to_chars
append e (text v) = record { st = e.st ++ (b' ' ∷ v) }
append e (int i) = record { st = e.st ++ (b' ' ∷ to_chars i) }

unfoldable pub apps : Failure → List Arg → Failure
unfolding append
apps e [] = e
apps e (t ∷ ts) = apps (append e t) ts

-- The exception that `raise` throws.
unfoldable pub failure : String → List Arg → Failure
unfolding apps
failure s ts = apps (record { st = codes s }) ts

-- What a call comes to: it returns, it throws, or it does what C++ leaves undefined (an access
-- outside a block of memory). The first two carry the state of the object that the call is made on.
pub data Run {ℓ κ} (S : Type ℓ) (A : Type κ) : Type (ℓ ⊔ κ) where
  ok : A → S → Run S A
  raised : Failure → S → Run S A
  fault : Run S A

abbrev pub M {ℓ κ} : Type ℓ → Type κ → Type (ℓ ⊔ κ)
M S A = S → Run S A

abbrev pub bind {ℓ κ μ} : {S : Type ℓ} {A : Type κ} {B : Type μ} → Run S A → (A → M S B) → Run S B
bind (ok a s) f = f a s
bind (raised e s) f = raised e s
bind fault f = fault

infixl 5 ◌>>=◌ ◌>>◌
abbrev pub ◌>>=◌ {ℓ κ μ} : {S : Type ℓ} {A : Type κ} {B : Type μ} → M S A → (A → M S B) → M S B
◌>>=◌ m f s = bind (m s) f

abbrev pub ◌>>◌ {ℓ κ} : {S : Type ℓ} {B : Type κ} → M S (Unit {0}) → M S B → M S B
m >> k = m >>= λ _. k

abbrev pub return {ℓ κ} : {S : Type ℓ} {A : Type κ} → A → M S A
return a s = ok a s

abbrev pub raise {ℓ κ} : {S : Type ℓ} {A : Type κ} → String → List Arg → M S A
raise s ts b = raised (failure s ts) b

-- An access to memory that may lie outside the block.
abbrev pub access {ℓ κ} : {S : Type ℓ} {A : Type κ} → Option A → M S A
access none s = fault
access (some a) s = ok a s

-- `try m catch(...) { handler; throw; }`
abbrev pub rethrow {ℓ κ} : {S : Type ℓ} {A : Type κ} → (S → S) → Run S A → Run S A
rethrow handler (ok a s) = ok a s
rethrow handler (raised e s) = raised e (handler s)
rethrow handler fault = fault

-- ::std::from_chars into an int that starts at 0: an optional minus, then the digits up to the
-- first other character. Without digits, or out of the range of int, the int keeps its 0.
abbrev is_digit : ℕ → Bool
is_digit c = leb b'0' c && leb c b'9'

unfoldable pub read_digits : ℕ → List ℕ → ℕ
read_digits acc [] = acc
read_digits acc (c ∷ s) =
    let rest = read_digits (acc * 10 + (c - b'0')) s in if is_digit c then rest else acc

unfoldable pub from_chars : List ℕ → ℤ
unfolding read_digits
from_chars [] = pos 0
from_chars (c ∷ s) =
    if c == b'-'
    then (let n = read_digits 0 s in
        if n == 0 then pos 0 else if leb n 0x8000_0000 then negsuc (n - 1) else pos 0)
    else (let n = read_digits 0 (c ∷ s) in if ltb n 0x8000_0000 then pos n else pos 0)

message_lem :
    failure "compress" (int (pos 120) ∷ text (codes "a") ∷ int (negsuc 4) ∷ [])
    ≡ record { st = codes "compress 120 a -5" }
unfolding failure
message_lem = refl

from_chars_lem : from_chars (codes "-42x7") ≡ negsuc 41
unfolding from_chars
from_chars_lem = refl
