-- ===== src/Ambassador/Config/Reading.antt =====
-- What the configuration says is what main goes on with.
use onwards.Prelude.{
  ℕ, ◌≤◌, ◌<◌, ◌≡◌, refl, List, [], ◌∷◌, ◌++◌, ℤ, pos, none, length, arith, ap, ◌∙◌, ◌==◌,
  if◌then◌else◌, Bool, true, false, Option,
}
use onwards.Failure.{M, ◌>>=◌, ◌>>◌, return, ok, bind, codes, from_chars}
use onwards.FileBuffer.{FileBuffer, line_size, getline}
use onwards.FileBuffer.Lines.{Readable, stream, Plain, getline_lem}
use onwards.FixedString.{FixedString, assign}
use onwards.Ambassador.{Credentials, put_back}
use onwards.Ambassador.Login.{credentials}
use onwards.Ambassador.Request.{c_string}
use onwards.Sockets.{Sockaddr, sockaddr, to_port, with_address, udp_server}
use onwards.Ambassador.Config.{
  Start, Checked, fine, on_cfg, on_closed, on_cred, set_password, same_text, check_field,
  unless_bailed, field, Setup, Answers, read_credentials, read_config,
}

same_code : (c : ℕ) → (c == c) ≡ true
same_code c = ground arith

same_text_refl : (t : List ℕ) → same_text t t ≡ true
same_text_refl [] = refl
same_text_refl (c ∷ t) = rw (same_code c) (same_text_refl t)

check_field_lem : (t : List ℕ) → check_field t t ≡ fine tt
unfolding check_field
check_field_lem t = rw (same_text_refl t) refl

-- A line of the file
abbrev pub line_of : (name value : List ℕ) → List ℕ → List ℕ
line_of name value rest = name ++ (b' ' ∷ (value ++ (b'\n' ∷ rest)))

-- A value that getline takes
pub record IsValue (value : List ℕ) : Type 0 where
  pub plain : Plain b'\n' value
  pub short : length value < line_size

field_lem :
    {B : Type 0} (name value rest : List ℕ) (f : List ℕ → M Start (Checked B)) (s : Start)
    → Plain b' ' name
    → length name < line_size
    → IsValue value
    → Readable s.cfg.coming
    → stream s.cfg ≡ line_of name value rest
    → (g : FileBuffer) × (field name f s ≡ f value (record s { cfg = g }))
      × (stream g ≡ rest)
      × Readable g.coming
unfolding field
field_lem {B = B} name value rest f s plain short v ready e =
    let first = getline_lem b' ' name (value ++ (b'\n' ∷ rest)) s.cfg ready plain e short in
    let second = getline_lem b'\n' value rest first.0 first.3 v.plain first.2 v.short in
    (
      second.0,
      ap (λ r. bind (put_back (λ c. record s { cfg = c }) r) checked) (first.1)
          ∙ ap
              (λ c.
                unless_bailed c (λ _. on_cfg (getline b'\n') >>= f) (record s { cfg = first.0 }))
              (check_field_lem name)
          ∙ ap (λ r. bind (put_back (λ c. record s { cfg = c }) r) f) (second.1),
      second.2,
      second.3,
    )
  where
    checked : List ℕ → M Start (Checked B)
    checked actl = unless_bailed (check_field name actl) (λ _. on_cfg (getline b'\n') >>= f)

-- A name is plain if a test says so.
abbrev plain : ℕ → List ℕ → Bool
plain delim [] = true
plain delim (c ∷ cs) =
    let rest = plain delim cs in if c == delim then false else if c == b'\r' then false else rest

plain_lem : (delim : ℕ) (l : List ℕ) → plain delim l ≡ true → Plain delim l
plain_lem delim [] h = tt
plain_lem delim (c ∷ cs) h =
    (λ e. ground (arith, e, h), λ e. ground (arith, e, h), plain_lem delim cs (ground (arith, h)))

credentials_lem :
    (id : List ℕ) (c : Credentials)
    → length id ≤ 20
    → credentials id c ≡ ok tt (record c { ambass_id = id })
unfolding credentials
credentials_lem id c h = ground arith

credentials_read :
    (u : Setup) (t : Start) (id password rest : List ℕ) (p : FixedString)
    → IsValue id
    → IsValue password
    → length id ≤ 20
    → assign password t.cred.password ≡ ok tt p
    → Readable t.cfg.coming
    → stream t.cfg ≡ line_of (codes "AmbassadorID") id (line_of (codes "Password") password rest)
    → (g : FileBuffer) × (read_credentials u t
        ≡ ok (fine u) (record t { cfg = g; cred = record { ambass_id = id; password = p } }))
      × (stream g ≡ rest)
unfolding read_credentials
credentials_read u t id password rest p ids passwords short set ready e =
    let named = record t { cfg = first.0; cred = record (t.cred) { ambass_id = id } } in
    let second =
      field_lem (codes "Password") password rest on_password named
        (plain_lem b' ' (codes "Password") refl) (omega arith) passwords first.3 first.2 in
    (
      second.0,
      first.1
          ∙ ap
              (λ r.
                bind (put_back (λ c. record t { cfg = first.0; cred = c }) r)
                  (λ _. field (codes "Password") on_password))
              (credentials_lem id t.cred short)
          ∙ second.1
          ∙ ap
              (λ r.
                bind
                  (put_back (λ c. record named { cfg = second.0; cred = c })
                    (put_back (λ p. record (named.cred) { password = p }) r))
                  (λ _. return (fine u)))
              set,
      second.2,
    )
  where
    on_password : List ℕ → M Start (Checked Setup)
    on_password line = on_cred (set_password line) >> return (fine u)

    on_id : List ℕ → M Start (Checked Setup)
    on_id id = on_cred (credentials id) >> field (codes "Password") on_password

    first :
        (g : FileBuffer) × (field (codes "AmbassadorID") on_id t ≡ on_id id (record t { cfg = g }))
        × (stream g ≡ line_of (codes "Password") password rest)
        × Readable g.coming
    first =
        field_lem (codes "AmbassadorID") id (line_of (codes "Password") password rest) on_id t
          (plain_lem b' ' (codes "AmbassadorID") refl) (omega arith) ids ready e

udp_server_lem :
    (k : ℤ) (bind_to : ℤ → Sockaddr → Option ℕ) (p : ℕ) (closed : List ℤ)
    → bind_to k (sockaddr p) ≡ none
    → udp_server k bind_to p closed ≡ ok k closed
unfolding udp_server
udp_server_lem k bind_to p closed free = rw (free, udp_server) refl

-- If the file reads without an error and the text that is still to be read is the four lines of
-- the configuration, each value of fewer than 120 characters without a carriage return, the id of
-- at most 20 and the password accepted by its FixedString, and the system finds an address for
-- the node and binds the port, then main goes on with that address at port 56789, the socket, the
-- id and the password, no descriptor closed, and the rest of the file is unread, however its
-- reads cut the text.
pub read_config_lem :
    (w : Answers) (s : Start) (node port id password rest address : List ℕ) (p : FixedString)
    → IsValue node
    → IsValue port
    → IsValue id
    → IsValue password
    → length id ≤ 20
    → assign password s.cred.password ≡ ok tt p
    → w.pton (c_string node) ≡ (pos 1, address)
    → w.bind_to w.socket (sockaddr (to_port (from_chars port))) ≡ none
    → Readable s.cfg.coming
    → stream s.cfg
      ≡ line_of (codes "CMW-IP") node (
          line_of
            (codes "UDP-port-number")
            port
            (line_of (codes "AmbassadorID") id (line_of (codes "Password") password rest)))
    → (g : FileBuffer) × (read_config w s
        ≡ ok
            (fine (record { sa = record (sockaddr 56789) { address = address }; sock = w.socket }))
            (record s { cfg = g; cred = record { ambass_id = id; password = p } }))
      × (stream g ≡ rest)
unfolding read_config with_address
read_config_lem w s node port id password rest address p nodes ports ids passwords short set found
      free ready e =
    let here = record s { cfg = first.0 } in
    let second =
      field_lem (codes "UDP-port-number") port credentials_text (on_port sa) here
        (plain_lem b' ' (codes "UDP-port-number") refl) (omega arith) ports first.3 first.2 in
    let there = record s { cfg = second.0 } in
    let last =
      credentials_read (record { sa = sa; sock = w.socket }) there id password rest p ids passwords
        short set second.3 second.2 in
    (
      last.0,
      first.1
          ∙ ap
              (λ t.
                bind (with_address t 56789 here)
                  (λ sa. field (codes "UDP-port-number") (on_port sa)))
              found
          ∙ second.1
          ∙ ap (λ r. bind (put_back (λ l. record there { closed = l }) r) (on_sock sa))
              (udp_server_lem w.socket w.bind_to (to_port (from_chars port)) s.closed free)
          ∙ last.1,
      last.2,
    )
  where
    sa : Sockaddr
    sa = record (sockaddr 56789) { address = address }

    credentials_text : List ℕ
    credentials_text = line_of (codes "AmbassadorID") id (line_of (codes "Password") password rest)

    on_sock : Sockaddr → ℤ → M Start (Checked Setup)
    on_sock sa sock = read_credentials (record { sa = sa; sock = sock })

    on_port : Sockaddr → List ℕ → M Start (Checked Setup)
    on_port sa port =
        on_closed (udp_server w.socket w.bind_to (to_port (from_chars port))) >>= on_sock sa

    on_node : List ℕ → M Start (Checked Setup)
    on_node node = with_address (w.pton (c_string node)) 56789 >>= λ sa.
        field (codes "UDP-port-number") (on_port sa)

    first :
        (g : FileBuffer) × (field (codes "CMW-IP") on_node s ≡ on_node node (record s { cfg = g }))
        × (stream g ≡ line_of (codes "UDP-port-number") port credentials_text)
        × Readable g.coming
    first =
        field_lem (codes "CMW-IP") node (line_of (codes "UDP-port-number") port credentials_text)
          on_node s (plain_lem b' ' (codes "CMW-IP") refl) (omega arith) nodes ready e
