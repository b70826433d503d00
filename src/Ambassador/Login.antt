-- ===== src/Ambassador/Login.antt =====
-- struct Credentials of src/tiers/credentials.hh, gotPacket and flush of BufferCompressed, and login.
use onwards.Prelude.{
  ℕ, List, [], ◌∷◌, ℤ, pos, ltb_ℤ, le_bytes, length, Bool, Option, none, some, store, if◌then◌else◌,
}
use onwards.Failure.{M, Run, ok, raised, fault, bind, ◌>>◌, ◌>>=◌, return, raise, access, int}
use onwards.SendBuffer.{SendBuffer, receive_value}
use onwards.ReceiveBuffer.{give_bool}
use onwards.MarshallingInt.{receive_text}
use onwards.FixedString.{marshal_fixed}
use onwards.Messages.{marshal_hdr}
use onwards.Compressed
use onwards.Compressed.{
  Quicklz, BufferCompressed, got_hdr, decompress, flush, flushed, compressed_reset, adjust_frame,
}
use onwards.Io.{returned, threw, waiting}
use onwards.Ambassador.{Amb, World, Credentials, on_buf, on_out, on_in}
use onwards.Ambassador.Ring.{files_update}

-- The process goes on, or it ends.
pub data Step : Type 0 where
  going exits : Step

-- Credentials::marshalMembers
unfoldable pub mar_credentials : Credentials → M SendBuffer (Unit {0})
mar_credentials c = receive_text c.ambass_id >> marshal_fixed c.password

-- back::mar of the credentials, alone or with an int32_t, given by its bytes
abbrev pub mar_signup : Credentials → M SendBuffer (Unit {0})
mar_signup c = mar_credentials c

abbrev pub mar_login : Credentials → List ℕ → M SendBuffer (Unit {0})
mar_login c b = mar_credentials c >> receive_value b

-- Credentials (id), with the password still empty
unfoldable pub credentials : List ℕ → Credentials → Run Credentials (Unit {0})
credentials id c =
    if ltb_ℤ (pos 20) (pos (length id))
    then raise "ambassID length" [] (record c { ambass_id = id })
    else ok tt (record c { ambass_id = id })

module _ {q : Quicklz} where
  -- What a receive of the kernel puts in recBuf
  unfoldable pub put_in : ℤ → List ℕ → M (BufferCompressed q) (Unit {0})
  put_in at bs b =
      bind (access (store b.inp.rbuf at bs) b)
        λ block b. ok tt (record b { inp = record (b.inp) { rbuf = block } })

  unfoldable pub received_or : ℤ → Option (List ℕ) → M (BufferCompressed q) (Unit {0})
  unfolding put_in
  received_or at none = raise "Recv" (int (pos 0) ∷ [])
  received_or at (some bs) = put_in at bs

  -- gotPacket
  unfoldable pub got_packet : World → M (BufferCompressed q) (Unit {0})
  unfolding received_or
  got_packet w =
      received_or (pos 0) w.header
      >> (got_hdr q >>= λ span. received_or (span.0) w.body >> (decompress q >>= λ more. return tt))

  -- The flush of a BufferCompressed, in which a Write that waits for ever does not return
  unfoldable pub flush_all : World → M (BufferCompressed q) (Unit {0})
  flush_all w b = elim ((flush q w.writes b).1) [
    | returned _ ↦ ok tt (flushed q b)
    | threw e closed ↦ raised e b
    | waiting ↦ fault
  ]

  -- login, where connect has succeeded and setsockopt too
  unfoldable pub login : World → Credentials → Bool → M (Amb q) Step
  unfolding got_packet flush_all
  login w cred sign_up =
      on_out (
        if sign_up
        then marshal_hdr 0 10000 (mar_signup cred)
        else marshal_hdr 1 10000 (mar_login cred (le_bytes 4 1101000)))
      >> on_buf (Compressed.compress q)
      >> on_out (λ b. ok tt (record b { sock = w.new_sock }))
      >> on_buf (flush_all w)
      >> files_update w
      >> on_buf (got_packet w)
      >> (on_in give_bool >>= λ good. return (if good then going else exits))
