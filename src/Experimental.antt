-- ===== src/Experimental.antt =====
-- experimental/BufferFile.hh and ReceiveBufferTCP.hh. The headers with their base classes and with
-- Read, Write and sockRead are not in the repository: of the bases the members are taken that the
-- classes use, with packetLength an int of four bytes, `decode` is what Give<uint32_t> makes of
-- four bytes, and the calls on the descriptor are answered by the system.
pub mod Flushing
pub mod Tcp
pub mod Reads
pub mod Partial
pub mod Heading
pub mod Arriving
pub mod Steps
pub mod Batch
use onwards.Prelude.{
  ℕ, zero, suc, ◌+◌, ◌-◌, min, List, [], ◌∷◌, ℤ, pos, negsuc, ◌-ℤ◌, ltb_ℤ, int32, signed, Bool,
  true, false, ltb, if◌then◌else◌, length, take, drop, load, store,
}
use onwards.Failure.{Failure, M, Run, ok, raised, fault, bind, rethrow, raise, access, ◌>>=◌, ◌>>◌}

-- A read gets bytes, at most so many and as many as are there, or throws.
pub data Grant : Type 0 where
  up_to : ℕ → Grant
  throws : Failure → Grant

-- A descriptor: what is still to come, and what the next calls get
pub record Source : Type 0 where
  pub stream : List ℕ
  pub grants : ℕ → Grant
  pub calls : ℕ

-- ReceiveBufferFile
pub record ReceiveBufferFile : Type 0 where
  pub source : Source
  pub rbuf : List ℕ
  pub bufsize : ℕ
  pub bytes_available : ℕ
  pub index : ℕ
  pub msg_length : ℤ
  pub packet_length : ℤ

abbrev placed : ReceiveBufferFile → List ℕ → Run ReceiveBufferFile (Unit {0})
placed b bs = bind (access (store b.rbuf (pos b.bytes_available) bs) b) λ block b. ok tt (record b {
  source = record (b.source) {
    stream = drop (length bs) b.source.stream;
    calls = suc b.source.calls;
  };
  rbuf = block;
  bytes_available = b.bytes_available + length bs;
})

-- `bytesAvailable+=Read(hndl,this->buf+bytesAvailable,n)`; a negative n is a size past the buffer.
unfoldable pub read_more : ℤ → M ReceiveBufferFile (Unit {0})
read_more (negsuc n) b = fault
read_more (pos n) b = elim (b.source.grants b.source.calls) [
  | up_to m ↦ placed b (take (min n m) b.source.stream)
  | throws e ↦ raised e (record b { source = record (b.source) { calls = suc b.source.calls } })
]

-- The length of the packet, when its four bytes are there
unfoldable pub set_length : ℤ → M ReceiveBufferFile Bool
set_length n b =
    let b' = record b { index = 4; msg_length = n; packet_length = n } in
    if ltb_ℤ (pos b'.bufsize) n
    then raise "ReceiveBufferFile::GotPacket -- incoming size too great" [] b'
    else ok true b'

unfoldable pub take_length : (List ℕ → ℕ) → M ReceiveBufferFile Bool
unfolding set_length
take_length decode b =
    bind (access (load b.rbuf (pos 0) (pos 4)) b) λ four. set_length (signed int32 (decode four))

-- The outer if: false where the function returns
unfoldable pub read_header : (List ℕ → ℕ) → M ReceiveBufferFile Bool
unfolding read_more take_length
read_header decode b =
    if ltb b.bytes_available 4
    then (bind (read_more (pos (4 - b.bytes_available)) b)
        λ _ b. if ltb b.bytes_available 4 then ok false b else take_length decode b)
    else ok true b

unfoldable pub read_rest : M ReceiveBufferFile Bool
unfolding read_more
read_rest b = bind (read_more (b.packet_length -ℤ pos b.bytes_available) b) λ _ b.
    if ltb_ℤ (pos b.bytes_available) b.packet_length
    then ok false b
    else ok true (record b { bytes_available = 0 })

unfoldable pub reset_file : ReceiveBufferFile → ReceiveBufferFile
reset_file b = record b { bytes_available = 0 }

unfoldable pub got_packet_file : (List ℕ → ℕ) → M ReceiveBufferFile Bool
unfolding read_header read_rest
got_packet_file decode b =
    rethrow (λ b. record b { bytes_available = 0 })
      (bind (read_header decode b) λ here. if here then read_rest else λ b. ok false b)

-- A caller that polls until there is a packet, at most so many times
unfoldable pub poll : (List ℕ → ℕ) → ℕ → M ReceiveBufferFile Bool
unfolding got_packet_file
poll decode zero = λ b. ok false b
poll decode (suc n) =
    let more = poll decode n in
    got_packet_file decode >>= λ here. if here then (λ b. ok true b) else more
