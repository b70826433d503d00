-- ===== src/Ambassador/Loop.antt =====
-- The loop of main: one function for each kind of completion.
use onwards.Prelude.{
  ◌==◌, ℕ, zero, suc, ◌+◌, ◌-◌, take, length, List, [], ◌∷◌, ◌++◌, ℤ, pos, negsuc, ◌+ℤ◌, ltb_ℤ,
  Bool, false, Option, none, some, if◌then◌else◌,
}
use onwards.Failure.{M, Run, ok, raised, fault, bind, ◌>>◌, ◌>>=◌, return, raise, int, codes}
use onwards.ReceiveBuffer.{give_bool}
use onwards.MarshallingInt.{give_string_view}
use onwards.Compressed
use onwards.Compressed.{
  Quicklz, BufferCompressed, got_hdr, decompress, flush, flushed, compressed_reset, adjust_frame,
}
use onwards.Io.{got, failed}
use onwards.Ambassador.{Amb, CmwRequest, Socky, World, Credentials, close, on_buf, on_in, attempt}
use onwards.Ambassador.Ring.{
  submit_batch, ring_recvmsg, ring_recv9, ring_recv, ring_op, ring_send, ring_sendto, front_message,
}
use onwards.Ambassador.Request.{accept, marshal_generate, save_request, destroy}
use onwards.Ambassador.Login.{Step, going, exits, put_in, login}

-- The user data of a completion
pub data Code : Type 0 where
  did_recvmsg did_send did_recv9 did_recv did_save did_save_output did_fsync did_close did_sendto :
      Code

-- A completion: its result, whether more datagrams will come, the datagram that the kernel has put in
-- a buffer, if it passes io_uring_recvmsg_validate, and the bytes that it has put in recBuf.
pub record Completion : Type 0 where
  pub code : Code
  pub res : ℤ
  pub more : Bool
  pub datagram : Option (Socky × List ℕ)
  pub bytes : List ℕ

-- What pop_front and pop_back leave of the requests
abbrev pub tail_of : List CmwRequest → List CmwRequest
tail_of [] = []
tail_of (r ∷ rs) = rs

unfoldable pub front_of : List CmwRequest → List CmwRequest
front_of rs = take (length rs - 1) rs

module _ {q : Quicklz} where
  -- ioUring::submit, up to the peek
  unfoldable pub submit : M (Amb q) (Unit {0})
  submit s = bind (submit_batch s) λ _ s.
      let done = λ (s : Amb q). ok tt (record s { sent_bytes = pos 0; bufs_used = 0 }) in
      let adjusted = bind (on_buf (adjust_frame q s.sent_bytes) s) λ _. done in
      elim (s.sent_bytes) [ pos zero ↦ done s | pos (suc n) ↦ adjusted | negsuc n ↦ adjusted ]

  unfoldable pub tally_bytes : ℤ → M (Amb q) (Unit {0})
  tally_bytes sent s = ok tt (record s { sent_bytes = s.sent_bytes +ℤ sent })

  unfoldable pub validated : Option (Socky × List ℕ) → M (Amb q) (Socky × List ℕ)
  validated none = raise "recvmsg_validate" []
  validated (some d) = return d

  unfoldable pub rearm : Bool → M (Amb q) (Unit {0})
  rearm more s =
      if more
      then ok tt (record s { bufs_used = s.bufs_used + 1 })
      else ring_recvmsg (record s { bufs_used = s.bufs_used + 1 })

  unfoldable pub check_msg : Completion → M (Amb q) (Socky × List ℕ)
  unfolding validated rearm
  check_msg c = rearm c.more >>= λ _. validated c.datagram

  unfoldable pub set_requests : List CmwRequest → M (Amb q) (Unit {0})
  set_requests rs s = ok tt (record s { requests = rs })

  -- What the handler of Recvmsg does with the new request in the queue
  unfoldable pub marshal_sent : World → ℕ → CmwRequest → M (Amb q) (Unit {0})
  marshal_sent w fuel req =
      marshal_generate w fuel req >> on_buf (Compressed.compress q) >> ring_send

  -- requests.pop_back(), which destroys the request at the back
  unfoldable pub pop_back : World → CmwRequest → M (Amb q) (Unit {0})
  unfolding front_of
  pop_back w r = destroy w r >> λ s. ok tt (record s { requests = front_of s.requests })

  -- Once the request is constructed: an exception takes it out of the queue again.
  unfoldable pub on_request : World → ℕ → Socky → CmwRequest → M (Amb q) Step
  unfolding marshal_sent pop_back
  on_request w fuel frnt req s =
      bind
        (attempt (marshal_sent w fuel req (record s { requests = s.requests ++ (req ∷ []) }))
          (λ e. ring_sendto frnt (e.st ∷ []) >> pop_back w req))
        λ _. return going

  -- The `catch` once the datagram is there, and no request yet
  unfoldable pub on_constructed : World → ℕ → Socky → Run (Amb q) CmwRequest → Run (Amb q) Step
  unfolding on_request
  on_constructed w fuel frnt (ok req s) = on_request w fuel frnt req s
  on_constructed w fuel frnt (raised e s) = (ring_sendto frnt (e.st ∷ []) >> return going) s
  on_constructed w fuel frnt fault = fault

  -- The `catch` before there is a datagram
  unfoldable pub on_checked : World → ℕ → Run (Amb q) (Socky × List ℕ) → Run (Amb q) Step
  unfolding on_constructed
  on_checked w fuel (ok (frnt, span) s) = on_constructed w fuel frnt (accept w frnt span s)
  on_checked w fuel (raised e s) = ok going s
  on_checked w fuel fault = fault

  -- The handler of Recvmsg
  unfoldable pub on_recvmsg : World → ℕ → Completion → M (Amb q) Step
  unfolding check_msg on_checked
  on_recvmsg w fuel c s = on_checked w fuel (check_msg c s)

  -- What the handler of Recv does inside its `try`
  unfoldable pub answer : World → CmwRequest → M (Amb q) (Unit {0})
  answer w r =
      ring_recv9
      >> (on_buf (decompress q) >>= λ more. on_in give_bool >>= λ good.
          if good
          then (save_request w r >> ring_sendto r.frnt [])
          else (on_in give_string_view >>= λ s. ring_sendto r.frnt (codes "CMW:" ∷ s ∷ [])))

  -- The `try` of the handler of Recv, and its `catch`
  unfoldable pub answered : World → CmwRequest → M (Amb q) (Unit {0})
  unfolding answer
  answered w r s = attempt (answer w r s) (λ e. ring_sendto r.frnt (e.st ∷ []))

  -- requests.pop_front(), which destroys the request at the front
  unfoldable pub pop_front : World → CmwRequest → M (Amb q) Step
  pop_front w r = destroy w r >> λ s. ok going (record s { requests = tail_of s.requests })

  -- The handler of Recv: the reply is for the request that has waited longest.
  unfoldable pub on_reply : World → Completion → List CmwRequest → M (Amb q) Step
  unfolding answered pop_front put_in
  on_reply w c [] = return exits
  on_reply w c (r ∷ rs) =
      on_buf (λ b. put_in (b.compressed_start +ℤ pos 9) c.bytes b) >> answered w r >> pop_front w r

  unfoldable pub on_recv : World → Completion → M (Amb q) Step
  unfolding on_reply
  on_recv w c s = on_reply w c s.requests s

  -- `for(auto& r:requests){frntBuf.send(&r.frnt.addr,r.frnt.len);}`, where frntBuf holds `message`
  unfoldable pub notify : World → List ℕ → List CmwRequest → M (Amb q) (Unit {0})
  notify w message [] s = ok tt s
  notify w message (r ∷ rs) s =
      let rest =
        notify w message rs (record s { notified = s.notified ++ ((r.frnt, message) ∷ []) }) in
      elim (w.sent r.frnt) [
        | failed e ↦ raise "buf::send" (int (pos e) ∷ []) s
        | got zero ↦ raise "buf::send" (int (pos 0) ∷ []) s
        | got (suc n) ↦ rest
      ]

  -- frntBuf is reset and filled, and then sent to the front tier of each request.
  unfoldable pub tell_vanished : World → List CmwRequest → M (Amb q) (Unit {0})
  unfolding notify
  tell_vanished w rs =
      front_message (codes "Back tier vanished" ∷ []) >>= λ message. notify w message rs

  unfoldable pub destroy_all : World → List CmwRequest → M (Amb q) (Unit {0})
  destroy_all w [] = return tt
  destroy_all w (r ∷ rs) = destroy w r >> destroy_all w rs

  -- What main does when the back tier is gone
  unfoldable pub on_vanished : World → Credentials → M (Amb q) Step
  unfolding tell_vanished destroy_all set_requests
  on_vanished w cred s =
      (tell_vanished w s.requests
          >> destroy_all w s.requests
          >> set_requests []
          >> on_buf (λ b. ok tt (compressed_reset q b))
          >> (λ s. ring_op (close s.cmw_buf.out.sock) s)
          >> login w cred false)
        s

  -- EPIPE is 32.
  unfoldable pub on_failed : World → Credentials → Completion → M (Amb q) Step
  unfolding on_vanished
  on_failed w cred c = elim (c.res) [
    | pos n ↦ on_vanished w cred
    | negsuc n ↦ by_code c.code (if n == 31 then on_vanished w cred else return exits)
  ]
    where
      by_code : Code → M (Amb q) Step → M (Amb q) Step
      by_code did_save_output m = return going
      by_code did_fsync m = return going
      by_code did_recvmsg m = m
      by_code did_send m = m
      by_code did_recv9 m = m
      by_code did_recv m = m
      by_code did_save m = m
      by_code did_close m = m
      by_code did_sendto m = m

  -- The switch of main
  unfoldable pub on_done : World → ℕ → Completion → Code → M (Amb q) Step
  unfolding on_recvmsg on_recv tally_bytes
  on_done w fuel c did_recvmsg = on_recvmsg w fuel c
  on_done w fuel c did_send = tally_bytes c.res >> return going
  on_done w fuel c did_recv9 =
      on_buf (put_in (pos 0) c.bytes)
      >> (on_buf (got_hdr q) >>= λ span. ring_recv (span.0) (span.1) >> return going)
  on_done w fuel c did_recv = on_recv w c
  on_done w fuel c did_save = return exits
  on_done w fuel c did_save_output = return exits
  on_done w fuel c did_fsync = return exits
  on_done w fuel c did_close = return exits
  on_done w fuel c did_sendto = return exits

  unfoldable pub handle : World → Credentials → ℕ → Completion → M (Amb q) Step
  unfolding on_failed on_done
  handle w cred fuel c = if ltb_ℤ (pos 0) c.res then on_done w fuel c c.code else on_failed w cred c

  -- The completions of one round, in order, each with what the system answers meanwhile. An exception
  -- that reaches main, and a completion that ends the process, end the round.
  unfoldable pub run_round : Credentials → ℕ → List (World × Completion) → M (Amb q) Step
  unfolding handle
  run_round cred fuel [] s = ok going s
  run_round cred fuel ((w, c) ∷ cs) s =
      bind (handle w cred fuel c s)
        λ step. elim step [ going ↦ run_round cred fuel cs | exits ↦ return exits ]

  -- The body of the endless loop of main, on the completions that the peek finds
  unfoldable pub main_round : Credentials → ℕ → List (World × Completion) → M (Amb q) Step
  unfolding submit run_round
  main_round cred fuel cs = submit >> (λ s. run_round cred fuel cs (record s { s2ind = 0 }))
