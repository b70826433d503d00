-- ===== src/Ambassador/Config.antt =====
-- src/tiers/cmwAmb.cc: what main does before it makes the ring. It reads the configuration, opens the
-- server's socket, and makes the credentials. The system's answers are arguments. `bail` ends the process
-- with a line in the log.
pub mod Reading
use onwards.Prelude.{
  ℕ, List, [], ◌∷◌, ◌++◌, ℤ, pos, Bool, true, false, Option, none, some, ◌==◌, ◌&&◌, ◌||◌,
  if◌then◌else◌, String,
}
use onwards.Failure.{M, Run, ok, raised, fault, bind, ◌>>◌, ◌>>=◌, return, codes, from_chars}
use onwards.FileBuffer.{FileBuffer, getline}
use onwards.FixedString.{FixedString, assign}
use onwards.Ambassador.{Credentials, put_back}
use onwards.Ambassador.Request.{c_string}
use onwards.Ambassador.Login.{credentials}
use onwards.Sockets.{Sockaddr, with_address, to_port, udp_server}

-- The file, the descriptors that were closed, and the credentials
pub record Start : Type 0 where
  pub cfg : FileBuffer
  pub closed : List ℤ
  pub cred : Credentials

pub data Checked (A : Type 0) : Type 0 where
  fine : A → Checked A
  bailed : List ℕ → Checked A

abbrev pub on_cfg : {A : Type 0} → M FileBuffer A → M Start A
on_cfg m s = put_back (λ f. record s { cfg = f }) (m s.cfg)

abbrev pub on_closed : {A : Type 0} → M (List ℤ) A → M Start A
on_closed m s = put_back (λ l. record s { closed = l }) (m s.closed)

abbrev pub on_cred : {A : Type 0} → M Credentials A → M Start A
on_cred m s = put_back (λ c. record s { cred = c }) (m s.cred)

-- cred.password=
abbrev pub set_password : List ℕ → M Credentials (Unit {0})
set_password line c = put_back (λ p. record c { password = p }) (assign line c.password)

abbrev pub same_text : List ℕ → List ℕ → Bool
same_text [] [] = true
same_text [] (d ∷ ds) = false
same_text (c ∷ cs) [] = false
same_text (c ∷ cs) (d ∷ ds) = let rest = same_text cs ds in if c == d then rest else false

unfoldable pub check_field : List ℕ → List ℕ → Checked (Unit {0})
check_field fld actl = if same_text actl fld then fine tt else bailed (codes "Expected " ++ fld)

-- What follows a check, or the end of the process
abbrev pub unless_bailed :
    {A B : Type 0} → Checked A → (A → M Start (Checked B)) → M Start (Checked B)
unless_bailed (fine a) f = f a
unless_bailed (bailed t) f = return (bailed t)

-- A line: the name of the field, a blank, and its value
unfoldable pub field : {B : Type 0} → List ℕ → (List ℕ → M Start (Checked B)) → M Start (Checked B)
unfolding check_field
field name f = on_cfg (getline b' ') >>= λ actl.
    unless_bailed (check_field name actl) (λ _. on_cfg (getline b'\n') >>= f)

-- What main goes on with
pub record Setup : Type 0 where
  pub sa : Sockaddr
  pub sock : ℤ

pub record Answers : Type 0 where
  pub pton : List ℕ → ℤ × List ℕ
  pub socket : ℤ
  pub bind_to : ℤ → Sockaddr → Option ℕ

unfoldable pub read_credentials : Setup → M Start (Checked Setup)
read_credentials u = field (codes "AmbassadorID") λ id.
    on_cred (credentials id)
    >> field (codes "Password") λ line. on_cred (set_password line) >> return (fine u)

unfoldable pub read_config : Answers → M Start (Checked Setup)
unfolding read_credentials
read_config w = field (codes "CMW-IP") λ node. with_address (w.pton (c_string node)) 56789 >>= λ sa.
    field (codes "UDP-port-number") λ port.
      on_closed (udp_server w.socket w.bind_to (to_port (from_chars port))) >>= λ sock.
      read_credentials (record { sa = sa; sock = sock })

-- main (ac, av), up to the ring; `sign_up` says whether there is a third argument.
unfoldable pub start : Answers → (ac : ℕ) (name : List ℕ) → M Start (Checked (Setup × Bool))
start w ac name s =
    if ac == 2 || ac == 3
    then (bind (read_config w s)
        λ r s. elim r [ fine u ↦ ok (fine (u, ac == 3)) s | bailed t ↦ ok (bailed t) s ])
    else ok (bailed (codes "Usage: " ++ name ++ codes " config-file [-signup]")) s
