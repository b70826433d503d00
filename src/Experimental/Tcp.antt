-- ===== src/Experimental/Tcp.antt =====
-- experimental/ReceiveBufferTCP.hh: packets that one read brought are taken one after the other.
use onwards.Prelude.{
  ℕ, zero, suc, ◌+◌, ◌-◌, List, [], ◌∷◌, ℤ, pos, ◌+ℤ◌, ◌-ℤ◌, ltb_ℤ, int32, signed, narrow, pos_part,
  Bool, true, false, ◌==◌, if◌then◌else◌, ltb, length, take, load, store,
}
use onwards.Failure.{M, ok, bind, rethrow, raise, access, return, ◌>>=◌}

-- `initial` is a static variable of the function, one for all the buffers of a type.
pub record ReceiveBufferTcp : Type 0 where
  pub rbuf : List ℕ
  pub bufsize : ℕ
  pub bytes_available : ℕ
  pub index : ℕ
  pub packet_length : ℤ
  pub initial : Bool

-- BulkRead, where sockRead gets these bytes, as many as there is room for
unfoldable pub bulk_read : List ℕ → M ReceiveBufferTcp (Unit {0})
bulk_read bytes b =
    let b' = if b.bytes_available == 0 then record b { index = 0 } else b in
    let got = take (b'.bufsize - b'.bytes_available) bytes in
    bind (access (store b'.rbuf (pos b'.bytes_available) got) b')
      λ block b. ok tt (record b { rbuf = block; bytes_available = b.bytes_available + length got })

-- `::memmove(this->buf,this->buf+this->index,bytesAvailable); this->index=0;`
unfoldable pub move_front : M ReceiveBufferTcp Bool
move_front b = bind (access (load b.rbuf (pos b.index) (pos b.bytes_available)) b) λ bs b.
    bind (access (store b.rbuf (pos 0) bs) b)
      λ block b. ok false (record b { rbuf = block; index = 0 })

-- The length of the packet with its header, in the int packetLength
unfoldable pub set_size : ℤ → M ReceiveBufferTcp Bool
set_size n b =
    let b' = record b { index = b.index + 4; packet_length = n } in
    if ltb_ℤ (pos b'.bufsize) n
    then raise "ReceiveBufferTCP::GotPacket -- incoming size too great" [] b'
    else ok true (record b' { initial = false })

unfoldable pub take_size : (List ℕ → ℕ) → M ReceiveBufferTcp Bool
unfolding set_size
take_size decode b =
    bind (access (load b.rbuf (pos b.index) (pos 4)) b)
      λ four. set_size (narrow int32 (signed int32 (decode four) +ℤ pos 4))

-- The outer if: false where the function returns
unfoldable pub begin_packet : (List ℕ → ℕ) → M ReceiveBufferTcp Bool
unfolding take_size move_front
begin_packet decode b =
    let b' = record b { packet_length = pos 4 } in
    let short = if ltb 0 b.index then move_front b' else ok false b' in
    if b.initial
    then (if ltb b.bytes_available 4 then short else take_size decode b')
    else ok true b

unfoldable pub end_packet : M ReceiveBufferTcp Bool
unfolding move_front
end_packet b =
    let short = if ltb 4 b.index then move_front b else ok false b in
    if ltb_ℤ (pos b.bytes_available) b.packet_length
    then short
    else ok true (record b {
      bytes_available = pos_part (pos b.bytes_available -ℤ b.packet_length);
      initial = true;
    })

unfoldable pub got_packet_tcp : (List ℕ → ℕ) → M ReceiveBufferTcp Bool
unfolding begin_packet end_packet
got_packet_tcp decode b =
    rethrow (λ b. record b { bytes_available = 0 })
      (bind (begin_packet decode b) λ here. if here then end_packet else λ b. ok false b)

unfoldable pub reset_tcp : ReceiveBufferTcp → ReceiveBufferTcp
reset_tcp b = record b { bytes_available = 0 }

-- A caller that reads each packet to its end, at most so many of them
unfoldable pub read_content : M ReceiveBufferTcp (List ℕ)
read_content b =
    let n = pos_part b.packet_length - 4 in
    bind (access (load b.rbuf (pos b.index) (pos n)) b)
      λ bs b. ok bs (record b { index = b.index + n })

unfoldable pub drain : (List ℕ → ℕ) → ℕ → M ReceiveBufferTcp (List (List ℕ))
unfolding got_packet_tcp read_content
drain decode zero = return []
drain decode (suc n) =
    let more = read_content >>= λ p. drain decode n >>= λ ps. return (p ∷ ps) in
    got_packet_tcp decode >>= λ here. if here then more else return []
