-- ===== src/Experimental/Heading.antt =====
-- ReceiveBufferFile::GotPacket while the length of the packet is not known (GotPacket and Read of
-- experimental/BufferFile.hh)
use onwards.Prelude.{
  ℕ, ◌+◌, ◌-◌, ◌≤◌, ◌<◌, ◌≡◌, refl, sym, ap, ◌∙◌, List, ◌++◌, pos, int32, signed, signed_pos,
  lt→ltb, Bool, true, false, ltb, inl, if◌then◌else◌, length, length-append, take, drop,
  take-append, some, load_in, arith,
}
use mathlib.Core.Path.{subst}
use native.Mathlib.Decide.{dec_le}
use onwards.Failure.{M, Run, ok, bind, access, rethrow}
use onwards.Experimental.{
  ReceiveBufferFile, read_more, take_length, set_length, read_header, read_rest,
}
use onwards.Experimental.Reads.{partly, later, Delivery, packet, total, Step, reading}
use onwards.Experimental.Partial.{
  Partial, Called, finished, going, lengths, after_read, read_rest-Called,
}

module _ {decode : List ℕ → ℕ} (d : Delivery decode) where
  Called-more : {r : Run ReceiveBufferFile Bool} (m n : ℕ) → m ≤ n → Called d r m → Called d r n
  Called-more m n h (finished b e a) = finished b e a
  Called-more m n h (going b got slack more e p k l) = going b got slack more e p k (omega arith)

  pub Called-same : {q r : Run ReceiveBufferFile Bool} (m : ℕ) → q ≡ r → Called d r m → Called d q m
  Called-same m d (finished b e a) = finished b (d ∙ e) a
  Called-same m d (going b got slack more e p k l) = going b got slack more (d ∙ e) p k l

  pub Called-rethrow :
      {r : Run ReceiveBufferFile Bool} (m : ℕ) (f : ReceiveBufferFile → ReceiveBufferFile)
      → Called d r m
      → Called d (rethrow f r) m
  Called-rethrow m f (finished b e a) = finished b (ap (rethrow f) e) a
  Called-rethrow m f (going b got slack more e p k l) =
      going b got slack more (ap (rethrow f) e) p k l

  -- The length is read from the first four bytes.
  abbrev with_length : ReceiveBufferFile → ReceiveBufferFile
  with_length b = record b { index = 4; msg_length = pos (total d); packet_length = pos (total d) }

  take_length_lem :
      (b : ReceiveBufferFile) (slack more : List ℕ)
      → b.bufsize ≡ d.capacity
      → take_length decode (partly b d.prefix slack more)
        ≡ ok true (partly (with_length b) d.prefix slack more)
  unfolding take_length set_length
  take_length_lem b slack more e =
      ap
        (λ o.
          bind (access o (partly b d.prefix slack more))
            (λ h. set_length (signed int32 (decode h))))
        (load_in (d.prefix ++ slack) 0 4 (omega (arith, length-append d.prefix slack, d.four))
          ∙ ap some (take-append 4 d.prefix slack (sym d.four)))
      ∙ ap (λ n. set_length n (partly b d.prefix slack more))
          (ap (signed int32) d.sized ∙ signed_pos int32 (total d) d.small)
      ∙ rw e (ground arith)

  got_prefix : (got more : List ℕ) → got ++ more ≡ packet d → length got ≡ 4 → got ≡ d.prefix
  got_prefix got more e l =
      sym (take-append 4 got more (sym l))
      ∙ ap (take 4) e
      ∙ take-append 4 d.prefix d.body (sym d.four)

  unfoldable pub on_header : Bool → M ReceiveBufferFile Bool
  on_header here = if here then read_rest else λ b. ok false b

  headed : ReceiveBufferFile → Run ReceiveBufferFile Bool
  headed b = if ltb b.bytes_available 4 then ok false b else take_length decode b

  headed_short : (b : ReceiveBufferFile) → b.bytes_available < 4 → headed b ≡ ok false b
  unfolding headed
  headed_short b h =
      ap (λ t. if t then ok false b else take_length decode b) (lt→ltb b.bytes_available 4 h)

  headed_four : (b : ReceiveBufferFile) → b.bytes_available ≡ 4 → headed b ≡ take_length decode b
  unfolding headed
  headed_four b h = ap (λ n. if ltb n 4 then ok false b else take_length decode b) h

  -- The call on a packet whose length is not known yet
  module _ (b : ReceiveBufferFile) (got slack more : List ℕ) (p : Partial d b got slack more)
      (short : length got < 4) where
    u : Step d b got slack more (4 - length got)
    u =
        reading d b got slack more (4 - length got) (ap (λ g. g b.source.calls) p.granted)
          (omega arith) (omega (arith, lengths d p)) (omega (arith, p.room, lengths d p))

    abbrev with_more : ReceiveBufferFile
    with_more = partly (later b) (got ++ u.bytes) (drop (length u.bytes) slack) (u.left ++ d.rest)

    header_run :
        bind (read_header decode (partly b got slack (more ++ d.rest))) on_header
        ≡ bind (headed with_more) on_header
    unfolding read_header headed
    header_run =
        ap
          (λ t.
            bind
              (if t
                then (bind (read_more (pos (4 - length got)) (partly b got slack (more ++ d.rest)))
                    (λ _. headed))
                else ok true (partly b got slack (more ++ d.rest)))
              on_header)
          (lt→ltb (length got) 4 short)
        ∙ ap (λ r. bind (bind r (λ _. headed)) on_header) u.run

    sizes : length (got ++ u.bytes) + length u.left ≡ total d
    sizes = omega (
      arith,
      length-append got u.bytes,
      ap length u.parts,
      length-append u.bytes u.left,
      lengths d p,
    )

    some_left : 0 < length u.left
    some_left = omega (arith, sizes, length-append got u.bytes, u.most, d.some_body)

    next : Partial d (later b) (got ++ u.bytes) (drop (length u.bytes) slack) u.left
    next = after_read d b got slack more (4 - length got) p u some_left

    -- The four bytes are there, and what is missing is content.
    next_known :
        Partial d (with_length (later b)) (got ++ u.bytes) (drop (length u.bytes) slack) u.left
    next_known = record {
      whole = next.whole;
      missing = next.missing;
      room = next.room;
      bound = next.bound;
      granted = next.granted;
    }

    length_read :
        length (got ++ u.bytes) ≡ 4
        → headed with_more
          ≡ ok true (
              partly
                (with_length (later b))
                (got ++ u.bytes)
                (drop (length u.bytes) slack)
                (u.left ++ d.rest))
    length_read l =
        subst
          (λ x.
            headed (partly (later b) x (drop (length u.bytes) slack) (u.left ++ d.rest))
            ≡ ok true
                (partly (with_length (later b)) x (drop (length u.bytes) slack) (u.left ++ d.rest)))
          (sym (got_prefix (got ++ u.bytes) u.left next.whole l))
          (headed_four (partly (later b) d.prefix (drop (length u.bytes) slack) (u.left ++ d.rest))
              d.four
            ∙ take_length_lem (later b) (drop (length u.bytes) slack) (u.left ++ d.rest) p.bound)

    pub read_header-Called :
        Called d
          (bind (read_header decode (partly b got slack (more ++ d.rest))) on_header)
          (length more)
    unfolding on_header
    read_header-Called = elim (dec_le 4 (length (got ++ u.bytes))) [
      | yes four_here ↦
          Called-same (length more)
            (header_run
              ∙ ap (λ r. bind r on_header)
                  (length_read (omega (arith, length-append got u.bytes, u.most))))
            (Called-more (length u.left) (length more)
              (omega (arith, ap length u.parts, length-append u.bytes u.left))
              (read_rest-Called d (with_length (later b)) (got ++ u.bytes)
                (drop (length u.bytes) slack) u.left next_known refl))
      | no fewer ↦
          going (later b) (got ++ u.bytes) (drop (length u.bytes) slack) u.left
            (header_run ∙ ap (λ r. bind r on_header) (headed_short with_more (omega arith))) next
            (inl (omega arith))
            (omega (arith, ap length u.parts, length-append u.bytes u.left, u.least))
    ]
