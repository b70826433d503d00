-- ===== src/Io/Writing.antt =====
-- The loop of Write.
use onwards.Prelude.{
  ℕ, zero, suc, ◌-◌, ◌≤◌, ◌<◌, ◌≡◌, refl, sym, List, [], ◌∷◌, ◌++◌, Bool, length, length-drop, take,
  drop, take-append-drop, append_assoc, append-nil, ap, ◌∙◌, arith, ◌==◌, Bool-cases, inl, inr, ◌⊎◌,
  ◌≢◌, ==_iff,
}
use onwards.Io.{Reply, got, failed, eintr, returned, write_all}

-- What the system documents: a write takes no more than it is given.
abbrev pub Documented : ℕ → List Reply → Type 0
Documented n [] = Unit
Documented n (got r ∷ replies) = (r ≤ n) × Documented (n - r) replies
Documented n (failed e ∷ replies) = Documented n replies

-- For any replies of the system in which no write takes more than it was given, Write hands over
-- the bytes in order and each once: what the system has taken is a front part of the data, and
-- either nothing is left or Write has not returned.
pub write_all_lem :
    (do_close : Bool) (bytes : List ℕ) (replies : List Reply)
    → Documented (length bytes) replies
    → (left : List ℕ) × (bytes ≡ (write_all do_close bytes replies).0 ++ left)
      × ((left ≡ []) ⊎ ((write_all do_close bytes replies).1 ≢ returned tt))
unfolding write_all
write_all_lem c bytes [] d = (bytes, refl, inr λ e. cc)
write_all_lem c bytes (got zero ∷ replies) d = (bytes, refl, inr λ e. cc)
write_all_lem c bytes (got (suc r) ∷ replies) d = elim (Bool-cases (length bytes == suc r)) [
  | inl last ↦ rw last ([], sym (append-nil bytes), inl refl)
  | inr more ↦
      let rest =
        write_all_lem c (drop (suc r) bytes) replies (rw (length-drop (suc r) bytes) d.1) in
      rw more (
        rest.0,
        sym (take-append-drop (suc r) bytes)
            ∙ ap (λ t. take (suc r) bytes ++ t) rest.1
            ∙ sym (append_assoc (take (suc r) bytes) _ rest.0),
        rest.2,
      )
]
write_all_lem c bytes (failed e ∷ replies) d = elim (Bool-cases (e == eintr)) [
  | inl again ↦ rw again (write_all_lem c bytes replies d)
  | inr other ↦ rw other (bytes, refl, inr λ e. cc)
]

-- A system that makes progress: no call fails but by an interrupt, and each other takes something.
-- `work` counts the calls that are no interrupts.
abbrev pub Progress : List Reply → Type 0
Progress [] = Unit
Progress (got r ∷ replies) = (0 < r) × Progress replies
Progress (failed e ∷ replies) = (e ≡ eintr) × Progress replies

abbrev pub work : List Reply → ℕ
work [] = 0
work (got r ∷ replies) = suc (work replies)
work (failed e ∷ replies) = work replies

-- If no write takes more than it was given, each takes something or is interrupted, and there are
-- at least as many uninterrupted writes as bytes, of which there is one at least, then Write
-- returns.
pub write_all_ends :
    (do_close : Bool) (bytes : List ℕ) (replies : List Reply)
    → Documented (length bytes) replies
    → Progress replies
    → 0 < length bytes
    → length bytes ≤ work replies
    → (write_all do_close bytes replies).1 ≡ returned tt
unfolding write_all
write_all_ends c bytes [] d p some h = absurd (omega arith)
write_all_ends c bytes (got zero ∷ replies) d p some h = absurd (omega arith)
write_all_ends c bytes (got (suc r) ∷ replies) d p some h =
    elim (Bool-cases (length bytes == suc r)) [
      | inl last ↦ rw last
      | inr more ↦ rw more (
          write_all_ends c (drop (suc r) bytes) replies (rw (length-drop (suc r) bytes) d.1) p.1
            (ground (arith, length-drop (suc r) bytes)) (omega (arith, length-drop (suc r) bytes)))
    ]
write_all_ends c bytes (failed e ∷ replies) d p some h =
    rw ((==_iff e eintr).1 p.0) (write_all_ends c bytes replies d p.1 some h)
