-- ===== src/Messages/Outbox.antt =====
-- What a SendBuffer promises its users: an outbox of a given capacity, which takes each message whole or
-- refuses it. The outbox has no index, no saved size and no bytes that are left over.

use onwards.Prelude.{
  ℕ, ◌+◌, ◌≡◌, List, [], ◌∷◌, ◌++◌, ℤ, Width, size_of, length, Bool, true, false, ◌&&◌, leb,
  if◌then◌else◌, Option, none, some,
}
use onwards.Failure.{M, Run, ok, raised, fault}
use onwards.SendBuffer.{SendBuffer, reset}
use onwards.SendBuffer.Space.{View, of_view}
use onwards.SendBuffer.Emit.{Emits}
use onwards.ReceiveBuffer.Packet.{frames}
use onwards.Messages.{marshal_sized, marshal_hdr}

-- The messages, in the order in which they were taken
pub record Outbox : Type 0 where
  pub capacity : ℕ
  pub messages : List (List ℕ)

-- What is done to a buffer between two messages: a message without or with an id is marshalled, or
-- the buffer is emptied. A writer stands with the bytes that it is to write.
pub data Action : Type 0 where
  sized : ℕ → (mar : M SendBuffer (Unit {0})) (body : List ℕ) → Action
  named : (max id : ℕ) (mar : M SendBuffer (Unit {0})) (body : List ℕ) → Action
  emptied : Action

-- Whether the call returned, and the buffer after it; nothing after a fault
abbrev pub answer : Run SendBuffer (Unit {0}) → Option (Bool × SendBuffer)
answer (ok a b) = some (true, b)
answer (raised e b) = some (false, b)
answer fault = none

abbrev pub then_perform :
    Option (Bool × SendBuffer)
    → (SendBuffer → Option (List Bool × SendBuffer))
    → Option (List Bool × SendBuffer)
then_perform none f = none
then_perform (some (t, b)) f = elim (f b) [ none ↦ none | some (ts, b) ↦ some (t ∷ ts, b) ]

module _ (w : Width) where
  abbrev pub used : Outbox → ℕ
  used o = length (frames w o.messages)

  abbrev pub post : ℕ → List ℕ → Outbox → Bool × Outbox
  post max body o =
      if leb (used o + (size_of w + length body)) o.capacity && leb (size_of w + length body) max
      then (true, record o { messages = o.messages ++ (body ∷ []) })
      else (false, o)

  abbrev pub act : Action → Outbox → Bool × Outbox
  act (sized max mar body) o = post max body o
  act (named max id mar body) o = post max (id ∷ body) o
  act emptied o = (true, record o { messages = [] })

  abbrev pub act_all : List (Action) → Outbox → List Bool × Outbox
  act_all [] o = ([], o)
  act_all (a ∷ more) o = ((act a o).0 ∷ (act_all more (act a o).1).0, (act_all more (act a o).1).1)

  -- The writers do write these bytes.
  abbrev pub Writes : Action → Type 0
  Writes (sized max mar body) = Emits w mar body
  Writes (named max id mar body) = Emits w mar body
  Writes emptied = Unit

  abbrev pub AllWrite : List Action → Type 0
  AllWrite [] = Unit
  AllWrite (a ∷ more) = Writes a × AllWrite more

  abbrev pub perform : Action → SendBuffer → Option (Bool × SendBuffer)
  perform (sized max mar body) b = answer (marshal_sized max mar b)
  perform (named max id mar body) b = answer (marshal_hdr id max mar b)
  perform emptied b = some (true, reset b)

  abbrev pub perform_all : List (Action) → SendBuffer → Option (List Bool × SendBuffer)
  perform_all [] b = some ([], b)
  perform_all (a ∷ more) b = then_perform (perform a b) (perform_all more)

  abbrev pub view : Outbox → List ℕ → View
  view o space = record { done = frames w o.messages; cur = []; rest = space }

  -- The buffer holds what the outbox does, and space behind it.
  pub record Holds (k : ℤ) (b : SendBuffer) (o : Outbox) : Type 0 where
    pub space : List ℕ
    pub same : b ≡ of_view w k (view o space)
    pub whole : used o + length space ≡ o.capacity

  -- The call answered as the outbox does, and the buffer holds what the outbox does.
  abbrev pub Answers : ℤ → Option (Bool × SendBuffer) → Bool × Outbox → Type 0
  Answers k r (t, o) = (b : SendBuffer) × (r ≡ some (t, b)) × Holds k b o
