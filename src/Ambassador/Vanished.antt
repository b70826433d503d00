-- ===== src/Ambassador/Vanished.antt =====
-- What the front tiers are told when the back tier is gone (main of src/tiers/cmwAmb.cc)
use onwards.Prelude.{ℕ, ◌≡◌, List, [], ◌∷◌, ◌++◌, map, pos, int16, ◌⊎◌}
use onwards.Failure.{Run, ok, raised, fault, failure, int, codes}
use onwards.ReceiveBuffer.Packet.{frame}
use onwards.Messages.Front.{front_body}
use onwards.Compressed.{Quicklz}
use onwards.Io.{got, failed}
use onwards.Ambassador.{Amb, CmwRequest, Socky, World}

-- The datagram that says so: its length, the byte 0, the length of the text, the text and a 0
abbrev vanished : List ℕ
vanished = frame int16 (front_body (codes "Back tier vanished" ∷ []))

abbrev pub each_told : List CmwRequest → List (Socky × List ℕ)
each_told rs = map (λ (r : CmwRequest). (r.frnt, vanished)) rs

-- What telling the front tiers leaves, where it returns and where a send fails
abbrev pub Told : {q : Quicklz} → World → List CmwRequest → Amb q → Run (Amb q) (Unit {0}) → Type 0
Told w rs s (ok a t) = t ≡ record s { notified = s.notified ++ each_told rs }
Told w rs s (raised e t) =
    (before : List CmwRequest) × (r : CmwRequest) × (after : List CmwRequest) × (errno : ℕ) × (rs
      ≡ before ++ (r ∷ after))
    × ((w.sent r.frnt ≡ failed errno) ⊎ ((w.sent r.frnt ≡ got 0) × (errno ≡ 0)))
    × (e ≡ failure "buf::send" (int (pos errno) ∷ []))
    × (t ≡ record s { notified = s.notified ++ each_told before })
Told w rs s fault = ⊥
