-- ===== src/Experimental/Partial.antt =====
-- What the rest of a packet becomes in a call.
use onwards.Prelude.{
  ℕ, suc, ◌+◌, ◌≤◌, ◌<◌, ◌≡◌, refl, sym, ap, ◌∙◌, List, [], ◌∷◌, ◌++◌, pos, ◌-ℤ◌, -ℤ_pos, ltb_ℤ,
  Bool, true, false, ◌⊎◌, inr, if◌then◌else◌, length, length-append, length-drop, take, drop,
  take-append, append_assoc, append-nil, arith,
}
use native.Mathlib.Decide.{dec_le}
use onwards.Failure.{Run, ok, bind}
use onwards.Experimental.{up_to, ReceiveBufferFile, read_more, read_rest}
use onwards.Experimental.Reads.{partly, later, Delivery, packet, total, Step, reading}

nothing_left : (xs : List ℕ) → ¬ 1 ≤ length xs → xs ≡ []
nothing_left [] h = refl
nothing_left (x ∷ xs) h = absurd (h (omega arith))

module _ {decode : List ℕ → ℕ} (d : Delivery decode) where
  -- A packet of which some bytes are missing
  pub record Partial (b : ReceiveBufferFile) (got slack more : List ℕ) : Type 0 where
    pub whole : got ++ more ≡ packet d
    pub missing : 0 < length more
    pub room : length got + length slack ≡ d.capacity
    pub bound : b.bufsize ≡ d.capacity
    pub granted : b.source.grants ≡ λ k. up_to (suc (d.grants k))

  -- A buffer with the whole packet, and what comes behind it still to be read
  pub record Arrived (b : ReceiveBufferFile) : Type 0 where
    pub holds : take (total d) b.rbuf ≡ packet d
    pub length_set : b.packet_length ≡ pos (total d)
    pub fresh : b.bytes_available ≡ 0
    pub unread : b.source.stream ≡ d.rest
    pub size : length b.rbuf ≡ d.capacity
    pub bound : b.bufsize ≡ d.capacity
    pub granted : b.source.grants ≡ λ k. up_to (suc (d.grants k))

  pub data Called (r : Run ReceiveBufferFile Bool) (missing : ℕ) : Type 0 where
    finished : (b : ReceiveBufferFile) → r ≡ ok true b → Arrived b → Called r missing
    going :
        (b : ReceiveBufferFile) (got slack more : List ℕ)
        → r ≡ ok false (partly b got slack (more ++ d.rest))
        → Partial b got slack more
        → ((length got < 4) ⊎ (b.packet_length ≡ pos (total d)))
        → length more < missing
        → Called r missing

  pub lengths :
      {b : ReceiveBufferFile} {got slack more : List ℕ}
      → Partial b got slack more
      → length got + length more ≡ total d
  lengths {b} {got} {slack} {more} p =
      omega
        (arith, ap length p.whole, length-append got more, length-append d.prefix d.body, d.four)

  pub after_read :
      (b : ReceiveBufferFile) (got slack more : List ℕ) (n : ℕ) (p : Partial b got slack more)
      (t : Step d b got slack more n)
      → 0 < length t.left
      → Partial (later b) (got ++ t.bytes) (drop (length t.bytes) slack) t.left
  after_read b got slack more n p t h = record {
    whole = append_assoc got t.bytes t.left ∙ ap (λ m. got ++ m) t.parts ∙ p.whole;
    missing = h;
    room = omega (
      arith,
      p.room,
      length-append got t.bytes,
      length-drop (length t.bytes) slack,
      lengths p,
      ap length t.parts,
      length-append t.bytes t.left,
    );
    bound = p.bound;
    granted = p.granted;
  }

  -- The end of a call
  tested : ReceiveBufferFile → Run ReceiveBufferFile Bool
  tested b =
      if ltb_ℤ (pos b.bytes_available) b.packet_length
      then ok false b
      else ok true (record b { bytes_available = 0 })

  tested_more :
      (b : ReceiveBufferFile)
      → b.packet_length ≡ pos (total d)
      → b.bytes_available < total d
      → tested b ≡ ok false b
  unfolding tested
  tested_more b e h = rw e (ground arith)

  tested_all :
      (b : ReceiveBufferFile)
      → b.packet_length ≡ pos (total d)
      → total d ≤ b.bytes_available
      → tested b ≡ ok true (record b { bytes_available = 0 })
  unfolding tested
  tested_all b e h = rw e (ground arith)

  module _ (b : ReceiveBufferFile) (got slack more : List ℕ) (p : Partial b got slack more)
      (known : b.packet_length ≡ pos (total d)) where
    t : Step d b got slack more (length more)
    t =
        reading d b got slack more (length more) (ap (λ g. g b.source.calls) p.granted) p.missing
          (omega arith) (omega (arith, p.room, lengths p))

    abbrev read_on : ReceiveBufferFile
    read_on = partly (later b) (got ++ t.bytes) (drop (length t.bytes) slack) (t.left ++ d.rest)

    content_run : read_rest (partly b got slack (more ++ d.rest)) ≡ tested read_on
    unfolding read_rest tested
    content_run =
        ap (λ n. bind (read_more n (partly b got slack (more ++ d.rest))) (λ _. tested))
          (ap (λ l. l -ℤ pos (length got)) known
            ∙ -ℤ_pos (total d) (length got) (omega (arith, lengths p))
            ∙ ap pos (omega (arith, lengths p)))
        ∙ ap (λ r. bind r (λ _. tested)) t.run

    read_length : length (got ++ t.bytes) + length t.left ≡ total d
    read_length = omega (
      arith,
      length-append got t.bytes,
      ap length t.parts,
      length-append t.bytes t.left,
      lengths p,
    )

    pub read_rest-Called : Called (read_rest (partly b got slack (more ++ d.rest))) (length more)
    read_rest-Called = elim (dec_le 1 (length t.left)) [
      | yes some_left ↦
          going (later b) (got ++ t.bytes) (drop (length t.bytes) slack) t.left
            (content_run ∙ tested_more read_on known (omega (arith, read_length)))
            (after_read b got slack more (length more) p t some_left) (inr known)
            (omega (arith, ap length t.parts, length-append t.bytes t.left, t.least))
      | no none_left ↦
          finished (record read_on { bytes_available = 0 })
            (content_run ∙ tested_all read_on known (omega (arith, read_length)))
            (record {
              holds =
                  ap (take (total d)) (ap (λ m. m ++ drop (length t.bytes) slack) (all none_left))
                  ∙ take-append (total d) (packet d) _ size_packet;
              length_set = known;
              fresh = refl;
              unread = ap (λ m. m ++ d.rest) (nothing_left t.left none_left);
              size = omega (
                arith,
                length-append (got ++ t.bytes) (drop (length t.bytes) slack),
                length-drop (length t.bytes) slack,
                read_length,
                p.room,
                length-append got t.bytes,
                d.fits,
              );
              bound = p.bound;
              granted = p.granted;
            })
    ]
      where
        all : ¬ 1 ≤ length t.left → got ++ t.bytes ≡ packet d
        all h =
            sym (append-nil (got ++ t.bytes))
            ∙ append_assoc got t.bytes []
            ∙ ap (λ l. got ++ (t.bytes ++ l)) (sym (nothing_left t.left h))
            ∙ ap (λ m. got ++ m) t.parts
            ∙ p.whole

        size_packet : total d ≡ length (packet d)
        size_packet = omega (arith, length-append d.prefix d.body, d.four)
