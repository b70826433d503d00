-- ===== src/FileBuffer/Lines.antt =====
-- getline on the text of the file, however the system cuts it into blocks.
use onwards.Prelude.{
  ne→==, lt→leb_false, ℕ, zero, suc, ◌+◌, ◌≤◌, ◌<◌, ◌≡◌, ◌≢◌, refl, sym, List, [], ◌∷◌, ◌++◌,
  length, length-append, arith, ap, ◌∙◌, append_assoc, append-nil,
}
use native.Mathlib.Decide.{dec_lt}
use onwards.Failure.{ok, raised, failure}
use onwards.FileBuffer.{
  FileBuffer, Block, bytes, failed, line_size, getc, next_char, getline_loop, getline,
}

-- The file reads on without an error: every block has something in it.
abbrev pub Readable : List Block → Type 0
Readable [] = Unit
Readable (bytes bs ∷ blocks) = (bs ≢ []) × Readable blocks
Readable (failed e ∷ blocks) = ⊥

abbrev text_of : List Block → List ℕ
text_of [] = []
text_of (bytes bs ∷ blocks) = bs ++ text_of blocks
text_of (failed e ∷ blocks) = []

-- The text that is still to be read.
abbrev pub stream : FileBuffer → List ℕ
stream f = f.ahead ++ text_of f.coming

-- One character of the stream, from whichever block.
pub getc_lem :
    (f : FileBuffer) (c : ℕ) (rest : List ℕ)
    → Readable f.coming
    → stream f ≡ c ∷ rest
    → (g : FileBuffer) × (getc f ≡ ok c g) × (stream g ≡ rest) × Readable g.coming
unfolding getc
getc_lem f c rest ready e = by_ahead f.ahead f.coming ready e
  where
    by_ahead :
        (cs : List ℕ) (blocks : List Block)
        → Readable blocks
        → cs ++ text_of blocks ≡ c ∷ rest
        → (g : FileBuffer) × (next_char cs (record f { coming = blocks }) ≡ ok c g)
          × (stream g ≡ rest)
          × Readable g.coming
    by_ahead [] [] r e = cc
    by_ahead [] (bytes [] ∷ blocks) r e = absurd (r.0 refl)
    by_ahead [] (bytes (x ∷ xs) ∷ blocks) r e =
        (record { ahead = xs; coming = blocks }, cc, cc, r.1)
    by_ahead [] (failed x ∷ blocks) r e = absurd r
    by_ahead (x ∷ xs) blocks r e = (record { ahead = xs; coming = blocks }, cc, cc, r)

-- No end of line and no carriage return.
abbrev pub Plain : ℕ → List ℕ → Type 0
Plain delim [] = Unit
Plain delim (c ∷ cs) = (c ≢ delim) × (c ≢ b'\r') × Plain delim cs

-- One round of the loop, once the character is there.
round_end :
    (room delim : ℕ) (line : List ℕ) (f g : FileBuffer)
    → getc f ≡ ok delim g
    → getline_loop (suc room) delim line f ≡ ok line g
unfolding getline_loop
round_end room delim line f g e = rw e (ground arith)

round_plain :
    (room delim c : ℕ) (line : List ℕ) (f g : FileBuffer)
    → getc f ≡ ok c g
    → c ≢ delim
    → c ≢ b'\r'
    → length line + 1 < line_size
    → getline_loop (suc room) delim line f ≡ getline_loop room delim (line ++ (c ∷ [])) g
unfolding getline_loop
round_plain room delim c line f g e d r h =
    rw (e, ne→== c delim d, ne→== c b'\r' r, lt→leb_false line_size (length line + 1) h)

round_full :
    (room delim c : ℕ) (line : List ℕ) (f g : FileBuffer)
    → getc f ≡ ok c g
    → c ≢ delim
    → c ≢ b'\r'
    → line_size ≤ length line + 1
    → getline_loop (suc room) delim line f ≡ raised (failure "getline size" []) g
unfolding getline_loop
round_full room delim c line f g e d r h = rw e (ground arith)

round_cr :
    (room delim : ℕ) (line : List ℕ) (f g : FileBuffer)
    → getc f ≡ ok b'\r' g
    → delim ≢ b'\r'
    → getline_loop (suc room) delim line f ≡ raised (failure "getline cr" []) g
unfolding getline_loop
round_cr room delim line f g e d = rw e (ground arith)

getline_loop_lem :
    (room delim : ℕ) (line l rest : List ℕ) (f : FileBuffer)
    → Readable f.coming
    → Plain delim l
    → stream f ≡ l ++ (delim ∷ rest)
    → room + length line ≡ line_size
    → length line + length l < line_size
    → (g : FileBuffer) × (getline_loop room delim line f ≡ ok (line ++ l) g)
      × (stream g ≡ rest)
      × Readable g.coming
getline_loop_lem zero delim line l rest f ready plain e sum short = absurd (omega arith)
getline_loop_lem (suc room) delim line [] rest f ready plain e sum short =
    let (g, got, left, more) = getc_lem f delim rest ready e in
    (g, round_end room delim line f g got ∙ ap (λ t. ok t g) (sym (append-nil line)), left, more)
getline_loop_lem (suc room) delim line (c ∷ cs) rest f ready plain e sum short =
    let (g, got, left, more) = getc_lem f c (cs ++ (delim ∷ rest)) ready e in
    let grown : length (line ++ (c ∷ [])) ≡ length line + 1 = length-append line (c ∷ []) in
    let (h, loops, left', more') =
      getline_loop_lem room delim (line ++ (c ∷ [])) cs rest g more plain.2 left
        (omega (arith, grown)) (omega (arith, grown)) in
    (
      h,
      round_plain room delim c line f g got plain.0 plain.1 (omega arith)
          ∙ loops
          ∙ ap (λ t. ok t h) (append_assoc line (c ∷ []) cs),
      left',
      more',
    )

-- If the file reads without an error, and the text that is still to be read begins with a line of
-- fewer than 120 characters without a carriage return and its delimiter, getline returns the
-- line, and what is still to be read is the text behind the delimiter, however the reads of the
-- file cut the text into blocks.
pub getline_lem :
    (delim : ℕ) (l rest : List ℕ) (f : FileBuffer)
    → Readable f.coming
    → Plain delim l
    → stream f ≡ l ++ (delim ∷ rest)
    → length l < line_size
    → (g : FileBuffer) × (getline delim f ≡ ok l g) × (stream g ≡ rest) × Readable g.coming
unfolding getline
getline_lem delim l rest f ready plain e short =
    getline_loop_lem line_size delim [] l rest f ready plain e (omega arith) (omega arith)

getline_loop_long :
    (room delim : ℕ) (line l rest : List ℕ) (f : FileBuffer)
    → Readable f.coming
    → Plain delim l
    → stream f ≡ l ++ rest
    → room + length line ≡ line_size
    → 0 < room
    → line_size ≤ length line + length l
    → (g : FileBuffer) × (getline_loop room delim line f ≡ raised (failure "getline size" []) g)
getline_loop_long zero delim line l rest f ready plain e sum some long = absurd (omega arith)
getline_loop_long (suc room) delim line [] rest f ready plain e sum some long = absurd (omega arith)
getline_loop_long (suc room) delim line (c ∷ cs) rest f ready plain e sum some long =
    let (g, got, left, more) = getc_lem f c (cs ++ rest) ready e in
    let grown : length (line ++ (c ∷ [])) ≡ length line + 1 = length-append line (c ∷ []) in
    elim (dec_lt (length line + 1) line_size) [
      | yes short ↦
          let (h, loops) =
            getline_loop_long room delim (line ++ (c ∷ [])) cs rest g more plain.2 left
              (omega (arith, grown)) (omega arith) (omega (arith, grown)) in
          (h, round_plain room delim c line f g got plain.0 plain.1 short ∙ loops)
      | no full ↦ (g, round_full room delim c line f g got plain.0 plain.1 (omega arith))
    ]

-- If the file reads without an error, and the text that is still to be read begins with 120 or
-- more characters that are neither the delimiter nor a carriage return, getline throws the size
-- exception.
pub getline_long :
    (delim : ℕ) (l rest : List ℕ) (f : FileBuffer)
    → Readable f.coming
    → Plain delim l
    → stream f ≡ l ++ rest
    → line_size ≤ length l
    → (g : FileBuffer) × (getline delim f ≡ raised (failure "getline size" []) g)
unfolding getline
getline_long delim l rest f ready plain e long =
    getline_loop_long line_size delim [] l rest f ready plain e (omega arith) (omega arith)
      (omega arith)
