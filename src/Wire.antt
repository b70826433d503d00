-- ===== src/Wire.antt =====
-- The two ends of the wire: what a SendBuffer is made to write, a ReceiveBuffer gives back.
use onwards.Prelude.{ℕ, List, Width, ◌++◌}
use onwards.Failure.{M, ◌>>◌, ◌>>=◌}
use onwards.SendBuffer.{SendBuffer}
use onwards.SendBuffer.Emit.{Emits, >>-Emits}
use onwards.ReceiveBuffer.{ReceiveBuffer}
use onwards.ReceiveBuffer.Window.{Reads, >>=-Reads}

-- The bytes that `write` appends are those from which `parse` returns the value, and no more.
pub record Carries {ℓ} {A : Type ℓ} (w : Width) (write : M SendBuffer (Unit {0}))
    (parse : M ReceiveBuffer A) (a : A) : Type ℓ where
  pub bytes : List ℕ
  pub emits : Emits w write bytes
  pub reads : Reads parse bytes a

-- One value after the other.
pub >>-Carries {ℓ κ} :
    {A : Type ℓ} {B : Type κ} {w : Width} {m n : M SendBuffer (Unit {0})}
    {parse : M ReceiveBuffer A} (next : A → M ReceiveBuffer B) {a : A} {b : B}
    → Carries w m parse a
    → Carries w n (next a) b
    → Carries w (m >> n) (parse >>= next) b
>>-Carries {w} {m} {n} {parse} next {a} {b} p q = record {
  bytes = p.bytes ++ q.bytes;
  emits = >>-Emits w p.emits q.emits;
  reads = >>=-Reads parse next p.bytes q.bytes a b p.reads q.reads;
}
