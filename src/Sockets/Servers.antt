-- ===== src/Sockets/Servers.antt =====
-- A server's socket is the first that can be made, and it stays open only where it is returned.

use onwards.Prelude.{
  ℕ, List, [], ◌∷◌, ◌++◌, ℤ, pos, negsuc, Option, none, some, ◌≡◌, refl, sym, ap, ◌∙◌, append-nil,
}
use onwards.Failure.{Run, ok, raised, failure, int}
use onwards.Sockets.{
  Addrinfo, GetaddrinfoWrapper, addresses, get_sock_loop, get_sock, TcpAnswers, tcp_server,
  serve_on, serve, first_error, getaddrinfo_wrapper, preserve_error,
}

-- No socket can be made for any of these addresses.
abbrev pub AllFail : (Addrinfo → ℤ) → List Addrinfo → Type 0
AllFail socket [] = Unit
AllFail socket (a ∷ more) = (socket a ≡ negsuc 0) × AllFail socket more

skipped :
    (socket : Addrinfo → ℤ) (bad : List Addrinfo) (more : List Addrinfo) (w : GetaddrinfoWrapper)
    → AllFail socket bad
    → get_sock_loop socket (bad ++ more) w ≡ get_sock_loop socket more w
unfolding get_sock_loop
skipped socket [] more w h = refl
skipped socket (a ∷ bad) more w h = rw (h.0) (skipped socket bad more w h.1)

made :
    (socket : Addrinfo → ℤ) (a : Addrinfo) (more : List Addrinfo) (w : GetaddrinfoWrapper) (s : ℕ)
    → socket a ≡ pos s
    → get_sock_loop socket (a ∷ more) w ≡ ok (pos s) (record w { addr = a ∷ more })
unfolding get_sock_loop
made socket a more w s h = rw (h, get_sock_loop) refl

pub get_sock-first :
    (socket : Addrinfo → ℤ) (bad : List Addrinfo) (a : Addrinfo) (more : List Addrinfo) (s : ℕ)
    → AllFail socket bad
    → socket a ≡ pos s
    → get_sock socket (record { head = bad ++ (a ∷ more); addr = bad ++ (a ∷ more) })
      ≡ ok (pos s) (record { head = bad ++ (a ∷ more); addr = a ∷ more })
unfolding get_sock
get_sock-first socket bad a more s h e =
    let all = bad ++ (a ∷ more) in
    skipped socket bad (a ∷ more) (record { head = all; addr = all }) h
    ∙ made socket a more (record { head = all; addr = all }) s e

none_made :
    (socket : Addrinfo → ℤ) (found : List Addrinfo)
    → AllFail socket found
    → get_sock socket (record { head = found; addr = found })
      ≡ raised (failure "getaddrinfo getSock" []) (record { head = found; addr = [] })
unfolding get_sock get_sock_loop
none_made socket found h =
    ap (λ l. get_sock_loop socket l (record { head = found; addr = found }))
      (sym (append-nil found))
    ∙ skipped socket found [] (record { head = found; addr = found }) h

-- How a server that made the socket `s` ends, given the error of the three calls
abbrev pub ends : Option ℕ → ℤ → List ℤ → Run (List ℤ) ℤ
ends none s closed = ok s closed
ends (some errno) s closed = raised (failure "tcpServer" (int (pos errno) ∷ [])) (s ∷ closed)

serve_lem : (s : ℤ) (e : Option ℕ) (closed : List ℤ) → serve s (some e) closed ≡ ends e s closed
unfolding serve preserve_error
serve_lem s none closed = refl
serve_lem s (some errno) closed = refl

-- When the addresses begin with some for which no socket can be made, and one can be for the
-- next, tcpServer sets the option, binds that address and listens on that socket: it returns the
-- socket, still open, if all three succeed, and else closes it and throws the errno of the first
-- that fails.
pub tcp_server_lem :
    (w : TcpAnswers) (bad : List Addrinfo) (a : Addrinfo) (more : List Addrinfo) (s : ℕ)
    (closed : List ℤ)
    → AllFail (w.socket) bad
    → w.socket a ≡ pos s
    → tcp_server w (addresses (bad ++ (a ∷ more))) closed
      ≡ ends
          (first_error
            (w.reuse_addr (pos s))
            (first_error (w.bind_to (pos s) a) (w.listen (pos s))))
          (pos s)
          closed
unfolding tcp_server getaddrinfo_wrapper get_sock serve_on
tcp_server_lem w bad a more s closed h e =
    ap (λ r. serve_on w r closed) (get_sock-first (w.socket) bad a more s h e)
    ∙ serve_lem (pos s) _ closed

pub tcp_server-none :
    (w : TcpAnswers) (found : List Addrinfo) (closed : List ℤ)
    → AllFail (w.socket) found
    → tcp_server w (addresses found) closed ≡ raised (failure "getaddrinfo getSock" []) closed
unfolding tcp_server getaddrinfo_wrapper serve_on
tcp_server-none w found closed h = ap (λ r. serve_on w r closed) (none_made (w.socket) found h)
