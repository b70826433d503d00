-- ===== src/Sockets.antt =====
-- src/cmwBuffer.hh and src/cmwComplex.hh: the wrappers of sockets and addresses, over what the system
-- answers. A call that returns 0 or an error answers `none` or the errno. The state of a server is the
-- list of the descriptors that were closed, the latest first.
pub mod Servers
use onwards.Prelude.{
  ℕ, ◌+◌, ◌*◌, ◌/◌, ◌%◌, List, [], ◌∷◌, ℤ, pos, negsuc, int16, bits_of, Bool, true, false, zero,
  suc, ◌==◌, if◌then◌else◌, Option, none, some,
}
use onwards.Failure.{M, Run, ok, raised, fault, bind, ◌>>◌, ◌>>=◌, return, raise, int, text}

-- sockaddr_in, with the port in the order of the network
pub record Sockaddr : Type 0 where
  pub family : ℕ
  pub port : ℕ
  pub address : List ℕ

abbrev pub htons : ℕ → ℕ
htons n = n % 256 * 256 + n / 256

-- An int that becomes the uint16_t of a port
abbrev pub to_port : ℤ → ℕ
to_port n = bits_of int16 n

abbrev pub sockaddr : ℕ → Sockaddr
sockaddr p = record { family = 2; port = htons p; address = 0 ∷ 0 ∷ 0 ∷ 0 ∷ [] }

-- SockaddrWrapper (node, port), where `pton` is inet_pton: its result, and the address that it writes
unfoldable pub with_address : {S : Type 0} → ℤ × List ℕ → ℕ → M S Sockaddr
with_address (pos n, a) p =
    if n == 1
    then return (record (sockaddr p) { address = a })
    else raise "inet_pton" (int (pos n) ∷ [])
with_address (negsuc n, a) p = raise "inet_pton" (int (negsuc n) ∷ [])

unfoldable pub preserve_error : ℤ → ℕ → M (List ℤ) ℕ
preserve_error s errno closed = ok errno (s ∷ closed)

unfoldable pub udp_server : ℤ → (ℤ → Sockaddr → Option ℕ) → ℕ → M (List ℤ) ℤ
unfolding preserve_error
udp_server s bind_to p = elim (bind_to s (sockaddr p)) [
  | none ↦ return s
  | some errno ↦ preserve_error s errno >>= λ e. raise "udpServer" (int (pos e) ∷ [])
]

unfoldable pub set_rcv_timeout : {S : Type 0} → Option ℕ → M S (Unit {0})
set_rcv_timeout none = return tt
set_rcv_timeout (some errno) = raise "setRcvTimeout" (int (pos errno) ∷ [])

-- addrinfo: the list that begins with it is ai_next.
pub record Addrinfo : Type 0 where
  pub family : ℕ
  pub socktype : ℕ
  pub address : List ℕ

-- GetaddrinfoWrapper: `addr` is the rest of the list `head` that the pointer is at.
pub record GetaddrinfoWrapper : Type 0 where
  pub head : List Addrinfo
  pub addr : List Addrinfo

pub data Resolved : Type 0 where
  addresses : List Addrinfo → Resolved
  unresolved : List ℕ → Resolved

unfoldable pub getaddrinfo_wrapper : {S : Type 0} → Resolved → M S GetaddrinfoWrapper
getaddrinfo_wrapper (addresses found) = return (record { head = found; addr = found })
getaddrinfo_wrapper (unresolved why) = raise "getaddrinfo" (text why ∷ [])

-- The loop of getSock; socket answers -1 or a descriptor.
unfoldable pub get_sock_loop : (Addrinfo → ℤ) → List Addrinfo → M GetaddrinfoWrapper ℤ
get_sock_loop socket [] w = raise "getaddrinfo getSock" [] (record w { addr = [] })
get_sock_loop socket (a ∷ next) w =
    let rest = get_sock_loop socket next w in
    elim (socket a) [
      | negsuc n ↦ elim n [
        | zero ↦ rest
        | suc m ↦ ok (negsuc (suc m)) (record w { addr = a ∷ next })
      ]
      | pos s ↦ ok (pos s) (record w { addr = a ∷ next })
    ]

unfoldable pub get_sock : (Addrinfo → ℤ) → M GetaddrinfoWrapper ℤ
unfolding get_sock_loop
get_sock socket w = get_sock_loop socket w.addr w

-- operator(): a null pointer is not to be followed.
abbrev pub current : GetaddrinfoWrapper → Option Addrinfo
current w = elim (w.addr) [ [] ↦ none | a ∷ next ↦ some a ]

-- What the system answers to tcpServer
pub record TcpAnswers : Type 0 where
  pub socket : Addrinfo → ℤ
  pub reuse_addr : ℤ → Option ℕ
  pub bind_to : ℤ → Addrinfo → Option ℕ
  pub listen : ℤ → Option ℕ

-- The three calls, the later ones made only if the earlier succeed
abbrev pub first_error : Option ℕ → Option ℕ → Option ℕ
first_error none e = e
first_error (some errno) e = some errno

abbrev pub open_errors : TcpAnswers → ℤ → Option Addrinfo → Option (Option ℕ)
open_errors w s none = none
open_errors w s (some a) =
    some (first_error (w.reuse_addr s) (first_error (w.bind_to s a) (w.listen s)))

unfoldable pub serve : ℤ → Option (Option ℕ) → M (List ℤ) ℤ
unfolding preserve_error
serve s none = λ closed. fault
serve s (some none) = return s
serve s (some (some errno)) = preserve_error s errno >>= λ e. raise "tcpServer" (int (pos e) ∷ [])

unfoldable pub serve_on : TcpAnswers → Run GetaddrinfoWrapper ℤ → M (List ℤ) ℤ
unfolding serve
serve_on w (ok s ai) = serve s (open_errors w s (current ai))
serve_on w (raised e ai) = raised e
serve_on w fault = λ closed. fault

unfoldable pub tcp_server : TcpAnswers → Resolved → M (List ℤ) ℤ
unfolding getaddrinfo_wrapper get_sock serve_on
tcp_server w r = getaddrinfo_wrapper r >>= λ ai. serve_on w (get_sock (w.socket) ai)
