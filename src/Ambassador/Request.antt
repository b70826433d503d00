-- ===== src/Ambassador/Request.antt =====
-- class cmwRequest.
use onwards.Prelude.{
  zeros, ◌%◌, ℕ, zero, suc, ◌+◌, List, [], ◌∷◌, ◌++◌, ℤ, pos, ltb, ◌==◌, ◌||◌, length, take,
  if◌then◌else◌, int16, int32, bits_of, narrow, le_bytes, Bool, true, false, Option, none, some,
  ltb_ℤ,
}
use onwards.Failure.{M, ok, fault, rethrow, ◌>>◌, ◌>>=◌, return, raise, text, int, codes}
use onwards.SendBuffer.{
  reserve_bytes, copy_in, receive_at, receive_value, get_z, fill_in_hdr, rollback,
}
use onwards.ReceiveBuffer.{ReceiveBuffer, update}
use onwards.MarshallingInt.{MarshallingInt, marshal, read, receive_text, receive_texts}
use onwards.FixedString.{FixedString, receive_from, bytes_available, append}
use onwards.Messages.{reserve}
use onwards.Compressed.{Quicklz}
use onwards.FileBuffer.{FileBuffer, Block, bytes, failed, getline}
use onwards.Io.{set_directory_failed, open_file}
use onwards.Ambassador.{
  Amb, CmwRequest, Socky, World, Stat, found, missing, Dot, empty, unreadable, time, close, on_out,
  from_run,
}
use onwards.Ambassador.Ring.{ring_op, from_outcome, ring_save_output}

-- The text of a C string: what stands before the first zero.
abbrev pub c_string : List ℕ → List ℕ
c_string [] = []
c_string (c ∷ cs) = let rest = c_string cs in if c == 0 then [] else c ∷ rest

-- strrchr(s,'/'): what stands before the last slash, and behind it
abbrev pub strrchr : List ℕ → Option (List ℕ × List ℕ)
strrchr [] = none
strrchr (c ∷ cs) = elim (strrchr cs) [
  | some (dir, file) ↦ some (c ∷ dir, file)
  | none ↦ if c == b'/' then some ([], cs) else none
]

-- The name as it is sent: a path loses its directories. A name that begins with a dot and has no
-- slash is an address computed from null.
unfoldable pub file_name : List ℕ → Option (List ℕ)
file_name [] = some []
file_name (c ∷ cs) =
    if (c == b'.') || (c == b'/')
    then elim (strrchr (c ∷ cs)) [ none ↦ none | some (dir, file) ↦ some file ]
    else some (c ∷ cs)

abbrev pub starts : List ℕ → List ℕ → Bool
starts [] s = true
starts (p ∷ ps) [] = false
starts (p ∷ ps) (c ∷ cs) = let rest = starts ps cs in if p == c then rest else false

-- The members that are read from the datagram. The array of the path is taken to be zero.
unfoldable pub members : M ReceiveBuffer (MarshallingInt × FixedString)
members = read >>= λ acct. receive_from (zeros 120) >>= λ path. return (acct, path)

unfoldable pub receiver : List ℕ → ReceiveBuffer
receiver span = record {
  width = int16;
  rbuf = span;
  msg_length = pos 0;
  sub_total = pos 0;
  packet_length = pos 0;
  rindex = pos 0;
}

module _ {q : Quicklz} (w : World) where
  -- SendBuffer::receiveFile: a single read, which may be short
  unfoldable pub read_in : ℤ → ℕ → Block → M (Amb q) ℕ
  read_in i fd (bytes []) = raise "Read" (int (pos 0) ∷ [])
  read_in i fd (bytes (c ∷ cs)) = on_out (copy_in i (c ∷ cs) (pos (length (c ∷ cs)))) >> return fd
  read_in i fd (failed e) = raise "Read" (int (pos e) ∷ [])

  unfoldable pub receive_file : List ℕ → ℤ → M (Amb q) ℕ
  unfolding read_in
  receive_file nm sz =
      on_out (receive_value (le_bytes 4 (bits_of int32 sz)))
      >> (from_outcome (open_file nm (w.opened nm)) >>= λ fd.
          on_out (reserve_bytes sz) >>= λ i. read_in i fd (w.contents nm))

  -- marshalFile, once the name is known that is sent
  unfoldable pub marshal_named : List ℕ → ℤ → Option (List ℕ) → M (Amb q) Bool
  unfolding receive_file
  marshal_named name size none = λ s. fault
  marshal_named name size (some file) =
      on_out (receive_texts (file ∷ (0 ∷ []) ∷ []))
      >> (receive_file name size >>= λ fd. ring_op (close (pos fd)) >> return true)

  -- and once stat has answered
  unfoldable pub marshal_newer : List ℕ → Stat → M (Amb q) Bool
  unfolding marshal_named
  marshal_newer name (missing errno) s = raise "stat" (text name ∷ int (pos errno) ∷ []) s
  marshal_newer name (found mtime size) s =
      if ltb_ℤ s.prev_time mtime
      then marshal_named name (narrow int32 size) (file_name name) s
      else ok false s

  unfoldable pub marshal_file : List ℕ → M (Amb q) Bool
  unfolding marshal_newer
  marshal_file name = marshal_newer name (w.stat name)

  -- The loop over the lines of the middle file; the fuel counts the lines that may still be read.
  unfoldable pub marshal_files : ℕ → FileBuffer → ℕ → M (Amb q) ℕ
  unfolding marshal_file
  marshal_files zero f updated = λ s. fault
  marshal_files (suc fuel) f updated = from_run (getline b'\n' f) λ line g.
      let tok = c_string line in
      let skip = marshal_files fuel g updated in
      let taken = marshal_file tok >>= λ newer.
      marshal_files fuel g (if newer then (updated + 1) else updated) in
      if starts (codes "//") tok || starts (codes "define") tok
      then skip
      else if starts (codes "--") tok
      then return updated
      else taken

  -- cmwRequest::marshal
  unfoldable pub marshal_request : ℕ → CmwRequest → M (Amb q) (Unit {0})
  marshal_request fuel r =
      on_out (marshal r.acct_nbr)
      >> (on_out (reserve_bytes (pos 1)) >>= λ ind. marshal_file r.mdl_file >>= λ res.
          (if res then return tt else on_out (receive_text (r.mdl_file ++ (0 ∷ []))))
          >> on_out (receive_at ind ((if res then 1 else 0) ∷ []))
          >> (on_out (reserve_bytes (pos 1)) >>= λ idx.
              from_outcome (open_file r.mdl_file (w.opened r.mdl_file)) >>= λ fd.
              marshal_files fuel (record { ahead = []; coming = w.blocks r.mdl_file }) 0
              >>= λ updated.
                  on_out (receive_at idx ((updated % 256) ∷ [])) >> ring_op (close (pos fd))))

  -- back::marshal<generate,700000>
  unfoldable pub marshal_generate : ℕ → CmwRequest → M (Amb q) (Unit {0})
  marshal_generate fuel r s =
      rethrow (λ s. record s { cmw_buf = record (s.cmw_buf) { out = rollback s.cmw_buf.out } })
        ((on_out (reserve (get_z s.cmw_buf.out + 1))
            >> marshal_request fuel r
            >> on_out (fill_in_hdr (pos 700000) (2 ∷ [])))
          s)

  -- The read of prevTime
  unfoldable pub read_dot : Dot → M (Amb q) (Unit {0})
  read_dot empty s = ok tt (record s { prev_time = pos 0 })
  read_dot (unreadable e) s = raise "read dot" (int (pos e) ∷ []) s
  read_dot (time t) s = ok tt (record s { prev_time = t })

  -- The constructor, once the directory is set
  unfoldable pub open_last :
      Socky → MarshallingInt → FixedString → List ℕ → List ℕ → Option ℕ → M (Amb q) CmwRequest
  unfolding read_dot
  open_last ft acct path dir file (some errno) = set_directory_failed dir errno
  open_last ft acct path dir file none =
      let last = take 59 (codes "." ++ (file ++ codes ".last")) in
      from_outcome (open_file last (w.opened last)) >>= λ fd.
      read_dot (w.dot last)
      >> return (record {
        frnt = ft;
        bday = narrow int32 w.now;
        acct_nbr = acct;
        path = path;
        mdl_file = file;
        dotfd = fd;
      })

  -- once the last slash of the path is looked for
  unfoldable pub split_path :
      Socky → MarshallingInt → FixedString → Option (List ℕ × List ℕ) → M (Amb q) CmwRequest
  unfolding open_last
  split_path ft acct path none = raise "cmwRequest didn't find /" []
  split_path ft acct path (some (dir, file)) = open_last ft acct path dir file (w.chdir dir)

  -- and once the members are there
  unfoldable pub find_files : Socky → MarshallingInt → FixedString → M (Amb q) CmwRequest
  unfolding split_path
  find_files ft acct path =
      if ltb (bytes_available path) 3
      then raise "No room for file suffix" []
      else split_path ft acct path (strrchr (c_string path.str))

  -- The constructor, on the span of the datagram
  unfoldable pub accept : Socky → List ℕ → M (Amb q) CmwRequest
  unfolding members receiver
  accept ft span =
      from_run ((update (length span) >>= λ more. members) (receiver span))
        λ m b. find_files ft (m.0) (m.1)

  unfoldable pub save_request : CmwRequest → M (Amb q) (Unit {0})
  save_request r =
      from_run (append (codes ".hh") r.path)
        λ _ path. ring_save_output w r.dotfd r.bday (c_string path.str)

  -- The destructor
  unfoldable pub destroy : CmwRequest → M (Amb q) (Unit {0})
  destroy r = ring_op (close (pos r.dotfd))
