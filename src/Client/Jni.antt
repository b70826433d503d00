-- ===== src/Client/Jni.antt =====
-- experimental/jni/genzMain.cc: the client of src/tiers/front/genz.cc for Java, which finds the middle
-- tier by getaddrinfo.
use onwards.Prelude.{
  ℕ, ◌≤◌, ◌≡◌, sym, refl, ap, ap₂, ◌∙◌, List, [], ◌∷◌, ◌++◌, ℤ, pos, Option, none, some, length,
  arith,
}
use onwards.Failure.{M, Run, ok, raised, fault, bind, codes}
use onwards.MarshallingInt.{of_text}
use onwards.Messages.{middle_marshal}
use onwards.Uring.{udp_packet_max}
use onwards.Sockets.{
  Sockaddr, with_address, to_port, Addrinfo, GetaddrinfoWrapper, Resolved, addresses,
  getaddrinfo_wrapper, get_sock, current,
}
use onwards.Sockets.Servers.{AllFail, get_sock-first}
use onwards.Client.{
  Net, Stack, Exit, leave, line, usage, wrote, rounds, genz, genz_main, buffer_stack, ended, host,
  port,
}
use onwards.Client.Ends.{to_server, with_arguments}

-- What the lookup of a node and a port comes to, the sockets that can be made, and what ai_addr points to
pub record Lookup : Type 0 where
  pub resolved : (node port : List ℕ) → Resolved
  pub socket : Addrinfo → ℤ
  pub at : Addrinfo → Sockaddr

abbrev pub port_text : List (List ℕ) → List ℕ
port_text (node ∷ p ∷ more) = p
port_text _ = codes "55555"

unfoldable pub locate : Lookup → List (List ℕ) → Run GetaddrinfoWrapper ℤ
unfolding getaddrinfo_wrapper get_sock
locate l more =
    bind
      (getaddrinfo_wrapper (l.resolved (host more) (port_text more))
        (record { head = []; addr = [] }))
      λ ai _. get_sock l.socket ai

-- genzMain behind the lookup
unfoldable pub genz_located :
    Net
    → Lookup
    → (ar acct path : List ℕ) → Run GetaddrinfoWrapper ℤ
    → Option (Exit × List (List ℕ × Sockaddr))
unfolding rounds buffer_stack
genz_located w l ar acct path (ok s ai) = elim (current ai) [
  | none ↦ none
  | some a ↦
      let stack = buffer_stack ar s in
      ended (
        bind (wrote stack (middle_marshal udp_packet_max (of_text acct) path stack.out))
          (λ _. rounds w (l.at a) 3 8))
]
genz_located w l ar acct path (raised e ai) = some (leave (line "" e.st), [])
genz_located w l ar acct path fault = none

unfoldable pub genz_main_jni :
    Net → Lookup → List ℕ → List (List ℕ) → Option (Exit × List (List ℕ × Sockaddr))
unfolding locate genz_located
genz_main_jni w l ar (name ∷ acct ∷ path ∷ []) = genz_located w l ar acct path (locate l [])
genz_main_jni w l ar (name ∷ acct ∷ path ∷ node ∷ []) =
    genz_located w l ar acct path (locate l (node ∷ []))
genz_main_jni w l ar (name ∷ acct ∷ path ∷ node ∷ p ∷ []) =
    genz_located w l ar acct path (locate l (node ∷ p ∷ []))
genz_main_jni w l ar _ = some (usage, [])

jni_arguments :
    (w : Net) (l : Lookup) (ar name acct path : List ℕ) (more : List (List ℕ))
    → length more ≤ 2
    → genz_main_jni w l ar (name ∷ acct ∷ path ∷ more)
      ≡ genz_located w l ar acct path (locate l more)
unfolding genz_main_jni
jni_arguments w l ar name acct path [] h = refl
jni_arguments w l ar name acct path (node ∷ []) h = refl
jni_arguments w l ar name acct path (node ∷ p ∷ []) h = refl
jni_arguments w l ar name acct path (node ∷ p ∷ x ∷ more) h = absurd (omega arith)

-- With at most a node and a port, when getaddrinfo finds addresses that begin with some for which
-- no socket can be made and go on with one for which the socket of the other client can, and
-- which is the address and port that the other client sends to, the client for Java ends as genz
-- does with the same answers, and sends the same.
pub genz_main_jni-genz_main :
    (w : Net) (l : Lookup) (ar name acct path : List ℕ) (more : List (List ℕ)) (address : List ℕ)
    (bad : List Addrinfo) (a : Addrinfo) (others : List Addrinfo) (s : ℕ)
    → length more ≤ 2
    → w.pton (host more) ≡ (pos 1, address)
    → w.socket ≡ pos s
    → l.resolved (host more) (port_text more) ≡ addresses (bad ++ (a ∷ others))
    → AllFail (l.socket) bad
    → l.socket a ≡ pos s
    → l.at a ≡ to_server more address
    → genz_main_jni w l ar (name ∷ acct ∷ path ∷ more) ≡ genz_main w ar (name ∷ acct ∷ path ∷ more)
unfolding locate getaddrinfo_wrapper genz_located genz with_address
genz_main_jni-genz_main w l ar name acct path more address bad a others s few found sock resolved
      fail made at =
    jni_arguments w l ar name acct path more few
    ∙ ap (genz_located w l ar acct path) (
        ap (λ r. bind (getaddrinfo_wrapper r nowhere) (λ ai _. get_sock l.socket ai)) resolved
        ∙ get_sock-first (l.socket) bad a others s fail made)
    ∙ ap₂ asked at (sym sock)
    ∙ ap ended (
        ap (λ t. bind (with_address t (to_port (port more)) (buffer_stack ar w.socket)) asks)
          (sym found))
    ∙ sym (with_arguments w ar name acct path more few)
  where
    nowhere : GetaddrinfoWrapper
    nowhere = record { head = []; addr = [] }

    asks : Sockaddr → M Stack Exit
    asks sa s =
        bind (wrote s (middle_marshal udp_packet_max (of_text acct) path s.out))
          λ _. rounds w sa 3 8

    asked : Sockaddr → ℤ → Option (Exit × List (List ℕ × Sockaddr))
    asked sa k = ended (asks sa (buffer_stack ar k))
