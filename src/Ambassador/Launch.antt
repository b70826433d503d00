-- ===== src/Ambassador/Launch.antt =====
-- src/tiers/cmwAmb.cc: main behind the configuration, up to its loop.
use onwards.Prelude.{Bool, if◌then◌else◌}
use onwards.Failure.{M, ◌>>◌, ◌>>=◌, return}
use onwards.Compressed.{Quicklz}
use onwards.Ambassador.{Amb, World, Credentials}
use onwards.Ambassador.Ring.{ring_recvmsg}
use onwards.Ambassador.Login.{Step, going, exits, login}

module _ {q : Quicklz} where
  -- A sign-up ends the process behind the login.
  unfoldable pub launch : World → Credentials → Bool → M (Amb q) Step
  launch w cred sign_up =
      let on = if sign_up then return exits else (ring_recvmsg >> return going) in
      login w cred sign_up >>= λ step. elim step [ going ↦ on | exits ↦ return exits ]
