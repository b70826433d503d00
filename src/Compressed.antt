-- ===== src/Compressed.antt =====
-- src/cmwBuffer.hh: BufferCompressed<SameFormat,int32_t,sz>, which compresses what its SendBuffer
-- holds into a zone of outgoing bytes, and decompresses what arrives into the block that its
-- ReceiveBuffer reads. The compressor, src/quicklz.h, is a copy of another project and a parameter.
pub mod Zone
use onwards.Prelude.{
  ℕ, ◌≤◌, true, false, ◌+◌, ◌-◌, ◌*◌, ◌/◌, List, [], ◌∷◌, ℤ, pos, negsuc, ◌+ℤ◌, ◌-ℤ◌, ltb_ℤ, ltb,
  Bool, Width, int32, narrow, length, take, drop, load, store, if◌then◌else◌, pos_part, splice,
}
use onwards.Failure.{M, Run, ok, raised, fault, bind, raise, access, int, ◌>>◌}
use onwards.SendBuffer
use onwards.SendBuffer.{SendBuffer}
use onwards.ReceiveBuffer.{ReceiveBuffer, update}
use onwards.Io.{Reply, Outcome, write_all}

-- What the code calls of the compressor. `compress` gives the bytes that it writes at its
-- destination, whose number it returns; the sizes are read from the first nine bytes of a packet.
pub record Quicklz : Type 1 where
  pub Comp : Type 0
  pub Decomp : Type 0
  pub new_comp : Comp
  pub new_decomp : Decomp
  pub compress : List ℕ → Comp → List ℕ × Comp
  pub size_compressed : List ℕ → ℕ
  pub size_decompressed : List ℕ → ℕ
  pub decompress : List ℕ → Decomp → List ℕ × Decomp

-- The documented bound of the compressor: a packet takes 400 bytes more than its content at most.
abbrev pub Bounded : Quicklz → Type 0
Bounded q = (src : List ℕ) (c : q.Comp) → length (q.compress src c).0 ≤ length src + 400

unfoldable pub qlz_formula : ℕ → ℕ
qlz_formula i = i + i / 8 + 400

pub record BufferCompressed (q : Quicklz) : Type 0 where
  pub sz : ℕ
  pub out : SendBuffer
  pub inp : ReceiveBuffer
  pub comp : q.Comp
  pub decomp : q.Decomp
  pub comp_buf : List ℕ
  pub comp_index : ℤ
  pub bytes_sent : ℤ
  pub compressed_start : ℤ

module _ (q : Quicklz) where
  -- The index of the SendBuffer is not negative here: it counts what it holds.
  unfoldable pub compress : M (BufferCompressed q) (Unit {0})
  compress b =
      let n = pos_part b.out.index in
      let b' = record b { out = SendBuffer.reset b.out } in
      if ltb_ℤ (pos (qlz_formula b.sz) -ℤ b.comp_index) (pos (qlz_formula n))
      then raise "compress zone" [] b'
      else (let (packet, comp) = q.compress (take n b.out.buf) b.comp in
          bind (access (store b.comp_buf b.comp_index packet) b') λ zone b. ok tt (record b {
            comp_buf = zone;
            comp = comp;
            comp_index = b.comp_index +ℤ pos (length packet);
          }))

  -- outDuo: what has been compressed since the last call
  unfoldable pub out_duo : M (BufferCompressed q) (List ℕ)
  out_duo b =
      bind (access (load b.comp_buf b.bytes_sent (b.comp_index -ℤ b.bytes_sent)) b)
        λ span b. ok span (record b { bytes_sent = b.comp_index })

  unfoldable pub adjust_frame : ℤ → M (BufferCompressed q) (Unit {0})
  adjust_frame bytes b =
      let left = b.comp_index -ℤ bytes in
      let index = if ltb_ℤ left (pos 0) then pos 0 else left in
      let b' = record b { bytes_sent = pos 0; comp_index = index } in
      if ltb_ℤ (pos 0) index
      then (bind (access (load b.comp_buf bytes index) b') λ moved b'.
          bind (access (store b'.comp_buf (pos 0) moved) b')
            λ zone b'. ok tt (record b' { comp_buf = zone }))
      else ok tt b'

  -- gotHdr: where the rest of the packet is to be read, as an offset in recBuf and a length
  unfoldable pub got_hdr : M (BufferCompressed q) (ℤ × ℤ)
  got_hdr b =
      let size = narrow int32 (pos (q.size_compressed b.inp.rbuf)) in
      let start = pos b.sz -ℤ size in
      let good = ok (start +ℤ pos 9, size -ℤ pos 9) (record b { compressed_start = start }) in
      if ltb_ℤ (pos b.sz) size
      then raise "gotIt size" (int size ∷ int (pos b.sz) ∷ []) b
      else if ltb b.sz (q.size_decompressed b.inp.rbuf)
      then raise "gotIt size" (int size ∷ int (pos b.sz) ∷ []) b
      else good

  -- The ReceiveBuffer that this class derives from, put back.
  opened : BufferCompressed q → Run ReceiveBuffer Bool → Run (BufferCompressed q) Bool
  opened b (ok more inp) = ok more (record b { inp = inp })
  opened b (raised e inp) = raised e (record b { inp = inp })
  opened b fault = fault

  -- The packet lies at compressedStart, its first nine bytes still at the front.
  unfoldable pub decompress : M (BufferCompressed q) Bool
  unfolding opened
  decompress b = bind (access (load b.inp.rbuf (pos 0) (pos 9)) b) λ header b.
      bind (access (store b.inp.rbuf b.compressed_start header) b) λ block b.
        let (plain, decomp) = q.decompress (drop (pos_part b.compressed_start) block) b.decomp in
        bind (access (store block (pos 0) plain) b) λ block b.
          opened (record b { decomp = decomp })
            (update (length plain) (record (b.inp) { rbuf = block }))

  -- flush: what the system takes of the zone. Only a write that succeeds empties it.
  unfoldable pub flush : List Reply → BufferCompressed q → List ℕ × Outcome (Unit {0})
  flush replies b = write_all false (take (pos_part b.comp_index) b.comp_buf) replies

  unfoldable pub flushed : BufferCompressed q → BufferCompressed q
  flushed b = record b { comp_index = pos 0 }

  unfoldable pub compressed_reset : BufferCompressed q → BufferCompressed q
  compressed_reset b = record b {
    out = SendBuffer.reset b.out;
    comp = q.new_comp;
    decomp = q.new_decomp;
    comp_index = pos 0;
    bytes_sent = pos 0;
  }
