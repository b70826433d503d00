-- ===== src/FileBuffer.antt =====
-- src/tiers/cmwAmb.cc: class FileBuffer, which reads a file line by line. The file is what the calls
-- of Read will return: blocks of bytes, or an errno.
pub mod Lines
use onwards.Prelude.{
  ℕ, zero, suc, ◌+◌, List, [], ◌∷◌, ◌++◌, ℤ, pos, Bool, ◌==◌, leb, length, if◌then◌else◌,
}
use onwards.Failure.{Failure, failure, M, Run, ok, raised, fault, bind, raise, int, ◌>>=◌, return}

pub data Block : Type 0 where
  bytes : List ℕ → Block
  failed : ℕ → Block

-- `ahead` is `buf` from `ind` up to `bytes`. A file that is used up returns empty blocks for ever.
pub record FileBuffer : Type 0 where
  pub ahead : List ℕ
  pub coming : List Block

-- The sizes of `buf` and `line`
abbrev pub buf_size : ℕ
buf_size = 4096

abbrev pub line_size : ℕ
line_size = 120

-- Read: a call that returns nothing throws, with the errno that is left from before, taken to be 0.
unfoldable pub refill : List Block → M FileBuffer ℕ
refill [] f = raise "Read" (int (pos 0) ∷ []) f
refill (bytes [] ∷ blocks) f = raise "Read" (int (pos 0) ∷ []) (record f { coming = blocks })
refill (bytes (c ∷ cs) ∷ blocks) f = ok c (record f { ahead = cs; coming = blocks })
refill (failed e ∷ blocks) f = raise "Read" (int (pos e) ∷ []) (record f { coming = blocks })

unfoldable pub next_char : List ℕ → M FileBuffer ℕ
next_char [] f = refill f.coming f
next_char (c ∷ cs) f = ok c (record f { ahead = cs })

unfoldable pub getc : M FileBuffer ℕ
unfolding next_char refill
getc f = next_char f.ahead f

-- The loop of getline: `room` is what `line` has left, and `line` what it holds.
unfoldable pub getline_loop : ℕ → ℕ → List ℕ → M FileBuffer (List ℕ)
getline_loop zero delim line = λ f. fault
getline_loop (suc room) delim line = do
  c ← getc
  let more = getline_loop room delim (line ++ (c ∷ []))
  if c == delim
      then return line
      else if c == b'\r'
      then raise "getline cr" []
      else if leb line_size (length line + 1)
      then raise "getline size" []
      else more

unfoldable pub getline : ℕ → M FileBuffer (List ℕ)
getline delim = getline_loop line_size delim []
