-- ===== src/Experimental/Reads.antt =====
-- What a read makes of a packet that is on its way.
use onwards.Prelude.{
  ℕ, suc, ◌+◌, ◌≤◌, ◌<◌, ◌≡◌, refl, sym, ap, ◌∙◌, List, ◌++◌, pos, int32, half_range, length,
  length-append, length-take, take, drop, take-append-drop, take-append_le, drop-append_le,
  store_in, splice, some, splice_lem, append_assoc, arith, min,
}
use onwards.Failure.{ok, bind, access}
use onwards.Experimental.{up_to, ReceiveBufferFile, placed, read_more}

-- A packet of which a part has come
abbrev pub partly : ReceiveBufferFile → (got slack more : List ℕ) → ReceiveBufferFile
partly b got slack more = record b {
  source = record (b.source) { stream = more };
  rbuf = got ++ slack;
  bytes_available = length got;
}

-- One read later
abbrev pub later : ReceiveBufferFile → ReceiveBufferFile
later b = record b { source = record (b.source) { calls = suc b.source.calls } }

-- Bytes that are put behind others
spliced :
    (got slack bs : List ℕ)
    → length bs ≤ length slack
    → splice (got ++ slack) (length got) bs ≡ (got ++ bs) ++ drop (length bs) slack
spliced got slack bs h =
    ap (λ t. splice (got ++ t) (length got) bs) (sym (take-append-drop (length bs) slack))
    ∙ splice_lem got (take (length bs) slack) (drop (length bs) slack) bs (length got) refl
        (omega (arith, length-take (length bs) slack))
    ∙ sym (append_assoc got bs (drop (length bs) slack))

placed_lem :
    (b : ReceiveBufferFile) (got slack more bs : List ℕ)
    → length bs ≤ length slack
    → placed (partly b got slack more) bs
      ≡ ok tt (partly (later b) (got ++ bs) (drop (length bs) slack) (drop (length bs) more))
placed_lem b got slack more bs h =
    ap
      (λ o. bind (access o (partly b got slack more)) λ block b. ok tt (record b {
        source = record (b.source) {
          stream = drop (length bs) b.source.stream;
          calls = suc b.source.calls;
        };
        rbuf = block;
        bytes_available = b.bytes_available + length bs;
      }))
      (store_in (got ++ slack) (length got) bs (omega (arith, length-append got slack))
        ∙ ap some (spliced got slack bs h))
    ∙ ap
        (λ n.
          ok tt
            (record (partly (later b) (got ++ bs) (drop (length bs) slack)
              (drop (length bs) more)) { bytes_available = n }))
        (sym (length-append got bs))

read_more_lem :
    (b : ReceiveBufferFile) (got slack more : List ℕ) (n g : ℕ)
    → b.source.grants b.source.calls ≡ up_to g
    → length (take (min n g) more) ≤ length slack
    → read_more (pos n) (partly b got slack more)
      ≡ ok tt (
          partly
            (later b)
            (got ++ take (min n g) more)
            (drop (length (take (min n g) more)) slack)
            (drop (length (take (min n g) more)) more))
unfolding read_more
read_more_lem b got slack more n g e h =
    rw (e, read_more) (placed_lem b got slack more (take (min n g) more) h)

-- A packet on its way: its four bytes of length and its content, with what comes behind it, to a buffer
-- that it fits in, and how many bytes each read gets, less one
pub record Delivery (decode : List ℕ → ℕ) : Type 0 where
  pub capacity : ℕ
  pub grants : ℕ → ℕ
  pub prefix : List ℕ
  pub body : List ℕ
  pub rest : List ℕ
  pub four : length prefix ≡ 4
  pub some_body : 0 < length body
  pub sized : decode prefix ≡ 4 + length body
  pub fits : 4 + length body ≤ capacity
  pub small : 4 + length body < half_range int32

module _ {decode : List ℕ → ℕ} (d : Delivery decode) where
  abbrev pub packet : List ℕ
  packet = d.prefix ++ d.body

  abbrev pub total : ℕ
  total = 4 + length d.body

  -- What a read gets of a packet that is on its way
  pub record Step (b : ReceiveBufferFile) (got slack more : List ℕ) (n : ℕ) : Type 0 where
    pub bytes : List ℕ
    pub left : List ℕ
    pub parts : bytes ++ left ≡ more
    pub least : 0 < length bytes
    pub most : length bytes ≤ n
    pub run :
        read_more (pos n) (partly b got slack (more ++ d.rest))
        ≡ ok tt (partly (later b) (got ++ bytes) (drop (length bytes) slack) (left ++ d.rest))

  pub reading :
      (b : ReceiveBufferFile) (got slack more : List ℕ) (n : ℕ)
      → b.source.grants b.source.calls ≡ up_to (suc (d.grants b.source.calls))
      → 0 < n
      → n ≤ length more
      → n ≤ length slack
      → Step b got slack more n
  reading b got slack more n e some_n h l = record {
    bytes = take j more;
    left = drop j more;
    parts = take-append-drop j more;
    least = omega (arith, len);
    most = omega (arith, len);
    run =
        read_more_lem b got slack (more ++ d.rest) n (suc (d.grants b.source.calls)) e
          (omega (arith, ap length same, len))
        ∙ ap
            (λ bs. ok tt (
              partly (later b) (got ++ bs) (drop (length bs) slack)
                (drop (length bs) (more ++ d.rest))))
            same
        ∙ ap
            (λ t.
              ok tt (partly (later b) (got ++ take j more) (drop (length (take j more)) slack) t))
            (drop-append_le (length (take j more)) more d.rest (omega (arith, len))
              ∙ ap (λ m. drop m more ++ d.rest) (omega (arith, len)));
  }
    where
      j : ℕ
      j = min n (suc (d.grants b.source.calls))

      len : length (take j more) ≡ j
      len = omega (arith, length-take j more)

      same : take j (more ++ d.rest) ≡ take j more
      same = take-append_le j more d.rest (omega arith)
