-- ===== src/Tests/Start.antt =====
-- The configuration at a concrete file.
use onwards.Prelude.{
  ℕ, ◌≡◌, refl, List, [], ◌∷◌, ◌++◌, pos, none, ◌<◌, arith, load, store, signed, bits_of,
}
use onwards.MarshallingInt.{value, of_int}
use onwards.Failure.{ok, codes}
use onwards.FileBuffer.{FileBuffer, bytes}
use onwards.FileBuffer.Lines.{stream}
use onwards.FixedString
use onwards.FixedString.{FixedString}
use onwards.Sockets.{sockaddr}
use onwards.Ambassador.Config.{Start, Answers, fine, read_config}
use onwards.Ambassador.Config.Reading.{read_config_lem, IsValue, line_of}

abbrev no_password : FixedString
no_password = record { str = 0 ∷ 0 ∷ 0 ∷ []; len = record { val = 0 } }

abbrev password : FixedString
password = record { str = 99 ∷ 0 ∷ 0 ∷ []; len = record { val = 1 } }

password_assigned : FixedString.assign (99 ∷ []) no_password ≡ ok tt password
unfolding FixedString.assign FixedString.copy_text load value signed of_int bits_of store
password_assigned = refl

-- Four lines, cut in the middle of the first
abbrev config_rest : List ℕ
config_rest =
    codes "-IP h"
    ++ (b'\n'
        ∷ line_of (codes "UDP-port-number") (codes "77")
            (line_of (codes "AmbassadorID") (codes "me") (line_of (codes "Password") (99 ∷ []) [])))

abbrev at_start : Start
at_start = record {
  cfg = record { ahead = []; coming = bytes (codes "CMW") ∷ bytes config_rest ∷ [] };
  closed = [];
  cred = record { ambass_id = []; password = no_password };
}

abbrev net : Answers
net = record { pton = λ node. (pos 1, 10 ∷ 0 ∷ 0 ∷ 7 ∷ []); socket = pos 3; bind_to = λ s a. none }

one : (c : ℕ) → 13 < c → IsValue (c ∷ [])
one c h = record {
  plain = (λ e. omega (arith, e, h), λ e. omega (arith, e, h), tt);
  short = omega arith;
}

two : (c d : ℕ) → 13 < c → 13 < d → IsValue (c ∷ d ∷ [])
two c d h k = record {
  plain = (
    λ e. omega (arith, e, h),
    λ e. omega (arith, e, h),
    (λ e. omega (arith, e, k), λ e. omega (arith, e, k), tt),
  );
  short = omega arith;
}

read_config_lem_example :
    (g : FileBuffer) × (read_config net at_start
      ≡ ok
          (fine (record {
            sa = record (sockaddr 56789) { address = 10 ∷ 0 ∷ 0 ∷ 7 ∷ [] };
            sock = pos 3;
          }))
          (record at_start {
            cfg = g;
            cred = record { ambass_id = codes "me"; password = password };
          }))
    × (stream g ≡ [])
read_config_lem_example =
    read_config_lem net at_start (codes "h") (codes "77") (codes "me") (99 ∷ []) []
      (10 ∷ 0 ∷ 0 ∷ 7 ∷ []) password (one 104 (omega arith)) (two 55 55 (omega arith) (omega arith))
      (two 109 101 (omega arith) (omega arith)) (one 99 (omega arith)) (omega arith)
      password_assigned refl refl (λ e. cc, (λ e. cc, tt)) refl
