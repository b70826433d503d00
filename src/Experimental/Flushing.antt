-- ===== src/Experimental/Flushing.antt =====
-- experimental/BufferFile.hh: SendBufferFile. What the buffer holds is written in order and once,
-- however little a call writes.
use onwards.Prelude.{
  ℕ, zero, suc, ◌-◌, ◌≤◌, ◌<◌, ◌≡◌, refl, sym, ap, ap₂, ◌∙◌, min, List, ◌++◌, pos, Bool, true,
  false, ◌==◌, ne→==, if◌then◌else◌, length, length-append, length-take, length-drop, take, drop,
  take-append, take-append-drop, take-take, drop-take, append_assoc, load, store, load_in, store_in,
  splice_front, slice, arith, some,
}
use native.Mathlib.Decide.{dec_le}
use onwards.Failure.{M, ok, bind, access, ◌>>=◌}

-- The block, how much of it waits, and what has been written to the descriptor
pub record SendBufferFile : Type 0 where
  pub buf : List ℕ
  pub index : ℕ
  pub file : List ℕ

-- The bytes that were not written go to the front: `::memmove(buf,buf+bytes,index)`.
unfoldable pub move_up : ℕ → M SendBufferFile Bool
move_up bytes b = bind (access (load b.buf (pos bytes) (pos (b.index - bytes))) b) λ left b.
    bind (access (store b.buf (pos 0) left) b)
      λ block b. ok false (record b { buf = block; index = b.index - bytes })

-- Flush, where the call can write so many bytes
unfoldable pub flush_bytes : ℕ → M SendBufferFile Bool
unfolding move_up
flush_bytes bytes b = bind (access (load b.buf (pos 0) (pos bytes)) b) λ out b.
    let b' = record b { file = b.file ++ out } in
    if bytes == b.index then ok true (record b' { index = 0 }) else move_up bytes b'

unfoldable pub flush_file : ℕ → M SendBufferFile Bool
unfolding flush_bytes
flush_file room b = flush_bytes (min room b.index) b

-- A caller that flushes until all is written, at most so many times: the k-th call has room for a byte
-- and `room k` more.
unfoldable pub flush_until : (ℕ → ℕ) → ℕ → M SendBufferFile Bool
unfolding flush_file
flush_until room zero = λ b. ok false b
flush_until room (suc k) =
    let again = flush_until room k in
    flush_file (suc (room k)) >>= λ here. if here then (λ b. ok true b) else again

-- A call that writes the rest
flush_file-rest :
    (room : ℕ) (b : SendBufferFile)
    → b.index ≤ length b.buf
    → b.index ≤ room
    → flush_file room b ≡ ok true (record b { file = b.file ++ take b.index b.buf; index = 0 })
unfolding flush_file flush_bytes
flush_file-rest room b h all =
    ap (λ n. flush_bytes n b) {x = min room b.index} {y = b.index} (omega arith)
    ∙ ground (arith, load_in b.buf 0 b.index (omega arith))

-- A call that writes a part
abbrev moved : ℕ → SendBufferFile → SendBufferFile
moved n b = record b {
  buf = slice b.buf n (b.index - n) ++ drop (length (slice b.buf n (b.index - n))) b.buf;
  index = b.index - n;
  file = b.file ++ take n b.buf;
}

flush_file-part :
    (room : ℕ) (b : SendBufferFile)
    → b.index ≤ length b.buf
    → room < b.index
    → flush_file room b ≡ ok false (moved room b)
unfolding flush_file flush_bytes move_up
flush_file-part room b h part =
    ap (λ n. flush_bytes n b) {x = min room b.index} {y = room} (omega arith)
    ∙ ap (λ o. bind (access o b) written) (load_in b.buf 0 room (omega arith))
    ∙ ap (λ t. if t then ok true (record (after b) { index = 0 }) else move_up room (after b))
        (ne→== room b.index (λ e. omega (arith, e)))
    ∙ ap (λ o. bind (access o (after b)) stored) (load_in b.buf room (b.index - room) (omega arith))
    ∙ ap
        (λ o.
          bind (access o (after b))
            (λ block b. ok false (record b { buf = block; index = b.index - room })))
        (store_in b.buf 0 left (omega (arith, length-take (b.index - room) (drop room b.buf)))
          ∙ ap some (splice_front left b.buf))
  where
    left : List ℕ
    left = slice b.buf room (b.index - room)

    after : SendBufferFile → SendBufferFile
    after b = record b { file = b.file ++ take room b.buf }

    written : List ℕ → M SendBufferFile Bool
    written out b =
        if room == b.index
        then ok true (record b { file = b.file ++ out; index = 0 })
        else move_up room (record b { file = b.file ++ out })

    stored : List ℕ → M SendBufferFile Bool
    stored left b =
        bind (access (store b.buf (pos 0) left) b)
          λ block b. ok false (record b { buf = block; index = b.index - room })

module _ (room : ℕ) (b : SendBufferFile) (h : b.index ≤ length b.buf) (part : room < b.index) where
  left : List ℕ
  left = slice b.buf room (b.index - room)

  length-left : length left ≡ b.index - room
  unfolding left
  length-left =
      omega (arith, length-take (b.index - room) (drop room b.buf), length-drop room b.buf)

  -- What waits is still in the block.
  moved_room : (moved room b).index ≤ length (moved room b).buf
  unfolding left
  moved_room = omega (
    arith,
    length-left,
    length-append left (drop (length left) b.buf),
    length-drop (length left) b.buf,
  )

  both : take room b.buf ++ left ≡ take b.index b.buf
  unfolding left
  both =
      ap₂ ◌++◌ (sym (take-take room b.index b.buf (omega arith)))
        (sym (drop-take room b.index (b.index - room) b.buf (omega arith)))
      ∙ take-append-drop room (take b.index b.buf)

  moved_same :
      (moved room b).file ++ take (moved room b).index (moved room b).buf
      ≡ b.file ++ take b.index b.buf
  unfolding left
  moved_same =
      append_assoc b.file (take room b.buf) _
      ∙ ap (λ t. b.file ++ (take room b.buf ++ t))
          (take-append (b.index - room) left (drop (length left) b.buf) (sym length-left))
      ∙ ap (λ t. b.file ++ t) both

-- If each call of Write has room for at least one byte, a SendBufferFile whose index lies in its
-- block is flushed after at most as many calls of Flush as the index and one more, the last of
-- which returns true: the file then has the bytes up to the index behind what it had, in their
-- order and once, and the index is 0.
pub flush_until_lem :
    (room : ℕ → ℕ) (k : ℕ) (b : SendBufferFile)
    → b.index ≤ length b.buf
    → b.index < k
    → (b' : SendBufferFile) × (flush_until room k b ≡ ok true b')
      × (b'.file ≡ b.file ++ take b.index b.buf)
      × (b'.index ≡ 0)
unfolding flush_until
flush_until_lem room zero b h enough = absurd (omega arith)
flush_until_lem room (suc k) b h enough = elim (dec_le b.index (suc (room k))) [
  | yes all ↦ (_, ap (λ r. bind r again) (flush_file-rest (suc (room k)) b h all), refl, refl)
  | no part ↦
      let rest =
        flush_until_lem room k (moved (suc (room k)) b)
          (moved_room (suc (room k)) b h (omega arith)) (omega arith) in
      (
        rest.0,
        ap (λ r. bind r again) (flush_file-part (suc (room k)) b h (omega arith)) ∙ rest.1,
        rest.2 ∙ moved_same (suc (room k)) b h (omega arith),
        rest.3,
      )
]
  where
    again : Bool → M SendBufferFile Bool
    again here = if here then (λ b. ok true b) else flush_until room k
