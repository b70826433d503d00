-- ===== src/Ambassador/Ring.antt =====
-- class ioUring: getSqe and the functions that prepare entries.
use onwards.Prelude.{
  zeros, ℕ, ◌+◌, ◌-◌, ◌==◌, List, [], ◌∷◌, ◌++◌, ℤ, pos, negsuc, ltb, leb, length, if◌then◌else◌,
  int16, take, drop,
}
use onwards.Failure.{M, Run, ok, raised, fault, bind, ◌>>◌, ◌>>=◌, raise, failure, int}
use onwards.SendBuffer.{SendBuffer, init}
use onwards.SendBuffer
use onwards.ReceiveBuffer.{give_file}
use onwards.Messages.{front_marshal}
use onwards.Compressed
use onwards.Compressed.{Quicklz}
use onwards.Io.{open_file, Outcome, returned, threw, waiting}
use onwards.Uring.{sub_q, udp_packet_max}
use onwards.Ambassador.{
  Amb, Op, nop, recvmsg, recv9, recv, send, close, save, save_output, fsync, sendto, Socky, World,
  on_buf, on_in,
}

abbrev fill : Op → List Op → List Op
fill op [] = []
fill op (o ∷ os) = op ∷ os

module _ {q : Quicklz} where
  -- The kernel takes the `n` entries that have waited longest, or all if there are fewer.
  unfoldable pub taken : ℕ → Amb q → Amb q
  taken n s = record s {
    submitted = drop (length s.queued - n) s.queued ++ s.submitted;
    queued = take (length s.queued - n) s.queued;
  }

  -- submitBatch, over the results of io_uring_submit_and_wait: the number of entries that the kernel
  -- has taken, or an errno below 0. EINTR is 4. The call waits where no result is left.
  unfoldable pub submit_with : List ℤ → M (Amb q) (Unit {0})
  unfolding taken
  submit_with [] s = fault
  submit_with (pos n ∷ more) s = ok tt (record (taken n s) { submissions = more })
  submit_with (negsuc n ∷ more) s =
      let again = submit_with more s in
      if n == 3
      then again
      else raised (failure "waitCqe" (int (negsuc n) ∷ [])) (record s { submissions = more })

  unfoldable pub submit_batch : M (Amb q) (Unit {0})
  unfolding submit_with
  submit_batch s = submit_with s.submissions s

  -- getSqe, once with `done` and once without: the entries that are handed out stay until the kernel
  -- takes them.
  unfoldable pub get_sqe_done : M (Amb q) (Unit {0})
  get_sqe_done s =
      if ltb (length s.queued) sub_q
      then ok tt (record s { queued = nop ∷ s.queued })
      else raise "getSqe" [] s

  unfoldable pub get_sqe : M (Amb q) (Unit {0})
  unfolding submit_batch get_sqe_done
  get_sqe s =
      if ltb (length s.queued) sub_q
      then ok tt (record s { queued = nop ∷ s.queued })
      else bind (submit_batch s) λ _. get_sqe_done

  -- io_uring_prep_...: writes the entry that getSqe has handed out last
  unfoldable pub prep : Op → M (Amb q) (Unit {0})
  prep op s = ok tt (record s { queued = fill op s.queued })

  unfoldable pub ring_op : Op → M (Amb q) (Unit {0})
  ring_op op = get_sqe >> prep op

  -- ioUring::recvmsg, recv9 and recv
  abbrev pub ring_recvmsg : M (Amb q) (Unit {0})
  ring_recvmsg = ring_op recvmsg

  abbrev pub ring_recv9 : M (Amb q) (Unit {0})
  ring_recv9 = ring_op recv9

  abbrev pub ring_recv : ℤ → ℤ → M (Amb q) (Unit {0})
  ring_recv offset len = ring_op (recv offset len)

  unfoldable pub ring_send : M (Amb q) (Unit {0})
  ring_send = get_sqe >> (on_buf (Compressed.out_duo q) >>= λ sp. prep (send sp))

  unfoldable pub files_update : World → M (Amb q) (Unit {0})
  files_update w s = if w.registered then ring_recv9 s else raise "reg files update" [] s

  unfoldable pub from_outcome {ℓ} : {A : Type ℓ} → Outcome A → M (Amb q) A
  from_outcome (returned a) s = ok a s
  from_outcome (threw e closed) s = raised e s
  from_outcome waiting s = fault

  unfoldable pub ring_save_output : World → ℕ → ℤ → List ℕ → M (Amb q) (Unit {0})
  ring_save_output w fd bday nam =
      get_sqe
      >> prep (save (pos fd) bday)
      >> get_sqe
      >> (from_outcome (open_file nam (w.opened nam)) >>= λ fd2. on_in give_file >>= λ sp.
          prep (save_output (pos fd2) sp) >> ring_op (fsync (pos fd2)) >> ring_op (close (pos fd2)))

  unfoldable pub message_of : Run SendBuffer (Unit {0}) → M (Amb q) (List ℕ)
  message_of (ok _ b) s = ok (SendBuffer.out_duo b) s
  message_of (raised e _) s = raised e s
  message_of fault s = fault

  -- The message of front::marshal, made in a buffer that was reset.
  unfoldable pub front_message : List (List ℕ) → M (Amb q) (List ℕ)
  unfolding message_of
  front_message ts s =
      message_of
        (front_marshal udp_packet_max ts 0 (init int16 (zeros udp_packet_max) (pos udp_packet_max)))
        s

  -- `++ind>=MaxBatch/2`
  unfoldable pub next_ind : M (Amb q) (Unit {0})
  unfolding submit_batch
  next_ind s =
      if leb 5 s.s2ind
      then (bind (submit_batch s) λ _ s. ok tt (record s { s2ind = 1 }))
      else ok tt (record s { s2ind = s.s2ind + 1 })

  unfoldable pub ring_sendto : Socky → List (List ℕ) → M (Amb q) (Unit {0})
  ring_sendto so ts = next_ind >> get_sqe >> (front_message ts >>= λ sp. prep (sendto sp so))
