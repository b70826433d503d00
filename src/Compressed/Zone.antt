-- ===== src/Compressed/Zone.antt =====
-- The zone of outgoing bytes as a queue: what waits to be acknowledged, and of that, what was handed
-- out already.
use onwards.Prelude.{
  splice_front, ℕ, ◌+◌, ◌-◌, ◌≤◌, ◌<◌, ◌≡◌, refl, List, [], ◌∷◌, ◌++◌, ℤ, pos, +ℤ_pos, -ℤ_pos,
  length, length-append, length-take, take, drop, take-append, drop-append, load_in, store_in,
  splice, slice, arith, ap, ◌∙◌, append_assoc,
}
use onwards.Failure.{ok, raised, failure, bind}
use onwards.SendBuffer
use onwards.SendBuffer.{SendBuffer}
use onwards.SendBuffer.Space.{splice_free}
use onwards.Compressed.{
  Quicklz, Bounded, BufferCompressed, qlz_formula, compress, out_duo, adjust_frame,
}

qlz_formula_bound : (n : ℕ) → n + 400 ≤ qlz_formula n
unfolding qlz_formula
qlz_formula_bound n = omega arith

length-zero : (xs : List ℕ) → length xs ≡ 0 → xs ≡ []
length-zero [] h = refl
length-zero (x ∷ xs) h = absurd (omega arith)

module _ (q : Quicklz) where
  -- The buffer whose zone holds `handed`, then `fresh`, then free space.
  abbrev pub zone_of : BufferCompressed q → List ℕ → List ℕ → List ℕ → BufferCompressed q
  zone_of b handed fresh slack = record b {
    comp_buf = handed ++ (fresh ++ slack);
    comp_index = pos (length handed + length fresh);
    bytes_sent = pos (length handed);
  }

  module _ (b : BufferCompressed q) (handed fresh slack : List ℕ) where
    sizes : length (handed ++ (fresh ++ slack)) ≡ length handed + length fresh + length slack
    sizes = omega (arith, length-append handed (fresh ++ slack), length-append fresh slack)

    -- outDuo hands out what is fresh, and nothing twice.
    pub out_duo_lem :
        out_duo q (zone_of b handed fresh slack) ≡ ok fresh (zone_of b (handed ++ fresh) [] slack)
    unfolding out_duo
    out_duo_lem = ground (
      arith,
      -ℤ_pos (length handed + length fresh) (length handed) (omega arith),
      load_in (handed ++ (fresh ++ slack)) (length handed)
          (length handed + length fresh - length handed) (omega (arith, sizes)),
      span,
      append_assoc handed fresh slack,
      length-append handed fresh,
    )
      where
        span :
            slice
              (handed ++ (fresh ++ slack))
              (length handed)
              (length handed + length fresh - length handed)
            ≡ fresh
        span =
            ap (take (length handed + length fresh - length handed))
              (drop-append (length handed) handed (fresh ++ slack) refl)
            ∙ take-append _ fresh slack (omega arith)

    -- adjustFrame drops as many bytes as it is told, moves the others to the front of the zone, and
    -- counts them all as not handed out, whatever was.
    pub adjust_frame_lem :
        (sent : ℤ)
        → adjust_frame q
            (pos (length handed))
            (record (zone_of b handed fresh slack) { bytes_sent = sent })
          ≡ ok tt (zone_of b [] fresh (drop (length fresh) (handed ++ (fresh ++ slack))))
    unfolding adjust_frame
    adjust_frame_lem sent = ground (
      arith,
      -ℤ_pos (length handed + length fresh) (length handed) (omega arith),
      load_in (handed ++ (fresh ++ slack)) (length handed)
          (length handed + length fresh - length handed) (omega (arith, sizes)),
      span,
      store_in (handed ++ (fresh ++ slack)) 0 fresh (omega (arith, sizes)),
      front,
      none_left,
    )
      where
        span :
            slice
              (handed ++ (fresh ++ slack))
              (length handed)
              (length handed + length fresh - length handed)
            ≡ fresh
        span =
            ap (take (length handed + length fresh - length handed))
              (drop-append (length handed) handed (fresh ++ slack) refl)
            ∙ take-append _ fresh slack (omega arith)

        front :
            splice (handed ++ (fresh ++ slack)) 0 fresh
            ≡ fresh ++ drop (length fresh) (handed ++ (fresh ++ slack))
        front = splice_front fresh (handed ++ (fresh ++ slack))

        none_left : length fresh ≡ 0 → fresh ≡ []
        none_left = length-zero fresh

    -- With a compressor that keeps its documented bound, a zone of the size that the class
    -- declares, and as much free space in it as the size formula asks for, compress appends the
    -- packet behind what waits in the zone, and empties the send buffer.
    pub compress_ok :
        (n : ℕ)
        → Bounded q
        → b.out.index ≡ pos n
        → n ≤ length b.out.buf
        → qlz_formula b.sz ≡ length handed + length fresh + length slack
        → qlz_formula n ≤ length slack
        → let (packet, comp) = q.compress (take n b.out.buf) b.comp in
          compress q (zone_of b handed fresh slack)
          ≡ ok tt (record (zone_of b handed (fresh ++ packet) (drop (length packet) slack)) {
            out = SendBuffer.reset b.out;
            comp = comp;
          })
    unfolding compress
    compress_ok n bound e room whole fits = ground (
      arith,
      e,
      -ℤ_pos (qlz_formula b.sz) (length handed + length fresh) (omega arith),
      store_in (handed ++ (fresh ++ slack)) (length handed + length fresh) packet
          (omega (arith, sizes, small)),
      splice_free handed fresh slack packet small,
      length-append fresh packet,
      +ℤ_pos (length handed + length fresh) (length packet),
    )
      where
        packet : List ℕ
        packet = (q.compress (take n b.out.buf) b.comp).0

        small : length packet ≤ length slack
        small =
            omega
              (arith, bound (take n b.out.buf) b.comp, length-take n b.out.buf, qlz_formula_bound n)

    -- With a zone of the size that the class declares, and less free space in it than the size
    -- formula asks for, compress throws, the send buffer is emptied, and what waits in the zone
    -- stays as it is.
    pub compress_full :
        (n : ℕ)
        → b.out.index ≡ pos n
        → qlz_formula b.sz ≡ length handed + length fresh + length slack
        → length slack < qlz_formula n
        → compress q (zone_of b handed fresh slack)
          ≡ raised
              (failure "compress zone" [])
              (record (zone_of b handed fresh slack) { out = SendBuffer.reset b.out })
    unfolding compress
    compress_full n e whole full =
        ground (arith, e, -ℤ_pos (qlz_formula b.sz) (length handed + length fresh) (omega arith))

  -- When a part of the bytes that were handed out is acknowledged, outDuo after adjustFrame hands
  -- out the other bytes that were handed out before once more, followed by the bytes that never
  -- were.
  pub handed_again :
      (b : BufferCompressed q) (acknowledged flying fresh slack : List ℕ)
      → bind
          (adjust_frame q
            (pos (length acknowledged))
            (zone_of b (acknowledged ++ flying) fresh slack))
          (λ _. out_duo q)
        ≡ ok (flying ++ fresh) (
            zone_of b
              (flying ++ fresh)
              []
              (drop (length (flying ++ fresh)) (acknowledged ++ ((flying ++ fresh) ++ slack))))
  handed_again b acknowledged flying fresh slack =
      ap (λ z. bind (adjust_frame q (pos (length acknowledged)) z) (λ _. out_duo q)) regrouped
      ∙ ap (λ r. bind r (λ _. out_duo q))
          (adjust_frame_lem b acknowledged (flying ++ fresh) slack
            (pos (length (acknowledged ++ flying))))
      ∙ out_duo_lem b [] (flying ++ fresh)
          (drop (length (flying ++ fresh)) (acknowledged ++ ((flying ++ fresh) ++ slack)))
    where
      regrouped :
          zone_of b (acknowledged ++ flying) fresh slack
          ≡ record (zone_of b acknowledged (flying ++ fresh) slack) {
            bytes_sent = pos (length (acknowledged ++ flying));
          }
      regrouped = ground (
        arith,
        length-append acknowledged flying,
        length-append flying fresh,
        append_assoc acknowledged flying (fresh ++ slack),
        append_assoc flying fresh slack,
      )
