-- ===== src/Experimental/Steps.antt =====
-- experimental/ReceiveBufferTCP.hh: what each part of a call does.
use onwards.Prelude.{
  ℕ, ◌+◌, ◌-◌, ◌≤◌, ◌≡◌, refl, ap, ◌∙◌, List, [], ◌++◌, pos, -ℤ_pos, Bool, true, false,
  if◌then◌else◌, ltb, length, length-append, take, drop, load, store, load_in, store_in,
  splice_front, take_all, slice, take-append, drop-append, arith, some,
}
use onwards.Failure.{M, Run, ok, bind, rethrow, access, return}
use onwards.Experimental.Tcp.{
  ReceiveBufferTcp, bulk_read, move_front, set_size, take_size, begin_packet, end_packet,
  got_packet_tcp,
}

ltb-false : (a b : ℕ) → b ≤ a → ltb a b ≡ false
ltb-false a b h = ground arith

sliced :
    (xs ys zs : List ℕ) (a n : ℕ)
    → a ≡ length xs
    → n ≡ length ys
    → slice (xs ++ (ys ++ zs)) a n ≡ ys
sliced xs ys zs a n e l = ap (take n) (drop-append a xs (ys ++ zs) e) ∙ take-append n ys zs l

-- A part of the block is loaded.
pub loaded :
    (xs ys zs : List ℕ) (a n : ℕ)
    → a ≡ length xs
    → n ≡ length ys
    → load (xs ++ (ys ++ zs)) (pos a) (pos n) ≡ some ys
loaded xs ys zs a n e l =
    load_in (xs ++ (ys ++ zs)) a n
      (omega (arith, e, l, length-append xs (ys ++ zs), length-append ys zs))
    ∙ ap some (sliced xs ys zs a n e l)

pub move_front-empty :
    (b : ReceiveBufferTcp)
    → b.bytes_available ≡ 0
    → b.index ≤ length b.rbuf
    → move_front b ≡ ok false (record b { rbuf = [] ++ drop 0 b.rbuf; index = 0 })
unfolding move_front
move_front-empty b e h =
    ap (λ n. bind (access (load b.rbuf (pos b.index) (pos n)) b) stored) e
    ∙ ap (λ o. bind (access o b) stored) (load_in b.rbuf b.index 0 (omega arith))
    ∙ ap (λ o. bind (access o b) placed)
        (store_in b.rbuf 0 [] (omega arith) ∙ ap some (splice_front [] b.rbuf))
  where
    placed : List ℕ → M ReceiveBufferTcp Bool
    placed block b = ok false (record b { rbuf = block; index = 0 })

    stored : List ℕ → M ReceiveBufferTcp Bool
    stored bs b = bind (access (store b.rbuf (pos 0) bs) b) placed

pub begins_four :
    (decode : List ℕ → ℕ) (b : ReceiveBufferTcp)
    → b.initial ≡ true
    → 4 ≤ b.bytes_available
    → begin_packet decode b ≡ take_size decode (record b { packet_length = pos 4 })
unfolding begin_packet
begins_four decode b i h = rw (i, ltb-false b.bytes_available 4 h) refl

pub size_kept :
    (b : ReceiveBufferTcp) (n : ℕ)
    → n ≤ b.bufsize
    → set_size (pos n) b
      ≡ ok true (record b { index = b.index + 4; packet_length = pos n; initial = false })
unfolding set_size
size_kept b n h = ground arith

pub ends_whole :
    (b : ReceiveBufferTcp) (n : ℕ)
    → b.packet_length ≡ pos n
    → n ≤ b.bytes_available
    → end_packet b ≡ ok true (record b { bytes_available = b.bytes_available - n; initial = true })
unfolding end_packet
ends_whole b n e h =
    rw (e, ltb-false (b.bytes_available + 0) (n + 0) (omega arith), -ℤ_pos b.bytes_available n h)
      refl

-- Where nothing is left, the block is only rearranged.
abbrev pub idle : ReceiveBufferTcp → (done slack : List ℕ) → ReceiveBufferTcp
idle b done slack = record b {
  rbuf = done ++ slack;
  index = length done;
  bytes_available = 0;
  initial = true;
}

pub none_left :
    (decode : List ℕ → ℕ) (b : ReceiveBufferTcp) (done slack : List ℕ)
    (rest : Bool → M ReceiveBufferTcp (List (List ℕ)))
    → rest false ≡ return []
    → (b' : ReceiveBufferTcp) × (bind (got_packet_tcp decode (idle b done slack)) rest ≡ ok [] b')
      × (b'.bytes_available ≡ 0)
unfolding got_packet_tcp begin_packet
none_left decode b done slack rest e = by_test (ltb 0 (length done))
  where
    nothing : ReceiveBufferTcp
    nothing = record (idle b done slack) { packet_length = pos 4 }

    by_test :
        (t : Bool)
        → (b' : ReceiveBufferTcp) × (bind
              (rethrow
                (λ b. record b { bytes_available = 0 })
                (bind
                  (if t then move_front nothing else ok false nothing)
                  λ here. if here then end_packet else λ b. ok false b))
              rest
            ≡ ok [] b')
          × (b'.bytes_available ≡ 0)
    by_test true = (
      _,
      ap
            (λ r.
              bind
                (rethrow (λ b. record b { bytes_available = 0 })
                  (bind r λ here. if here then end_packet else λ b. ok false b))
                rest)
            (move_front-empty nothing refl (omega (arith, length-append done slack)))
          ∙ ap (λ m. m (record nothing { rbuf = [] ++ drop 0 nothing.rbuf; index = 0 })) e,
      refl,
    )
    by_test false = (_, ap (λ m. m nothing) e, refl)

-- Bytes that are read into a buffer with none
pub bulk_read-empty :
    (b : ReceiveBufferTcp) (bytes : List ℕ)
    → length b.rbuf ≡ b.bufsize
    → length bytes ≤ b.bufsize
    → bulk_read bytes (record b { bytes_available = 0; initial = true })
      ≡ ok tt (record b {
        rbuf = bytes ++ drop (length bytes) b.rbuf;
        index = 0;
        bytes_available = length bytes;
        initial = true;
      })
unfolding bulk_read
bulk_read-empty b bytes size room =
    ap stored (take_all (b.bufsize - 0) bytes (omega arith))
    ∙ ap (λ o. bind (access o emptied) placed)
        (store_in b.rbuf 0 bytes (omega arith) ∙ ap some (splice_front bytes b.rbuf))
    ∙ ap
        (λ n. ok tt (record b {
          rbuf = bytes ++ drop (length bytes) b.rbuf;
          index = 0;
          bytes_available = n;
          initial = true;
        }))
        (omega arith)
  where
    emptied : ReceiveBufferTcp
    emptied = record b { bytes_available = 0; index = 0; initial = true }

    placed : List ℕ → M ReceiveBufferTcp (Unit {0})
    placed block b =
        ok tt (record b { rbuf = block; bytes_available = b.bytes_available + length bytes })

    stored : List ℕ → Run ReceiveBufferTcp (Unit {0})
    stored got = bind (access (store b.rbuf (pos 0) got) emptied) λ block b.
        ok tt (record b { rbuf = block; bytes_available = b.bytes_available + length got })
