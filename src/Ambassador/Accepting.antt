-- ===== src/Ambassador/Accepting.antt =====
-- The handler of a datagram from a front tier (the case Recvmsg of main in src/tiers/cmwAmb.cc)
use onwards.Prelude.{ℕ, ◌≡◌, List, [], ◌∷◌, ◌++◌, ◌⊎◌}
use onwards.Failure.{ok}
use onwards.Compressed
use onwards.Compressed.{Quicklz, BufferCompressed}
use onwards.Ambassador.{Amb, CmwRequest, Op, send, Socky, World}
use onwards.Ambassador.Request.{accept}
use onwards.Ambassador.Login.{Step, going}
use onwards.Ambassador.Loop.{Completion, check_msg, marshal_sent}
use onwards.Ambassador.Order.{entries}
use onwards.Ambassador.Keeps.{Keeps}

-- The newest entry sends what outDuo has given.
abbrev pub Sends : {q : Quicklz} → Amb q → Type 0
Sends {q} t =
    (b : BufferCompressed q) × (bytes : List ℕ) × (older : List Op) × (Compressed.out_duo q b
      ≡ ok bytes t.cmw_buf)
    × (entries t ≡ send bytes ∷ older)

-- A datagram became the request `req`.
abbrev pub Accepted : {q : Quicklz} → World → ℕ → Completion → (s t : Amb q) → Type 0
Accepted {q} w fuel c s t =
    (frnt : Socky) × (span : List ℕ) × (s1 : Amb q) × (req : CmwRequest) × (s2 : Amb q) × (check_msg
        c s
      ≡ ok (frnt, span) s1)
    × (accept w frnt span s1 ≡ ok req s2)
    × (marshal_sent w fuel req (record s2 { requests = s2.requests ++ (req ∷ []) }) ≡ ok tt t)
    × (t.requests ≡ s.requests ++ (req ∷ []))
    × Sends t

-- What the handler of a datagram leaves if it returns
abbrev pub Joined : {q : Quicklz} → World → ℕ → Completion → Amb q → Step → Amb q → Type 0
Joined w fuel c s step t = (step ≡ going) × ((t.requests ≡ s.requests) ⊎ Accepted w fuel c s t)
