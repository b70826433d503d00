-- ===== src/Messages.antt =====
-- The generated marshalling functions: src/tiers/cmwAmb.mdl.hh (structs back and front, and
-- Credentials::marshalMembers), src/tiers/front/genz.mdl.hh (struct middle) and
-- example/example.mdl.hh (struct exampleMessages). Each reserves room for the header, writes the
-- content, fills the header in, and rolls the buffer back if anything throws.
pub mod Room
pub mod Framing
pub mod Deliver
pub mod Outbox
pub mod Answering
pub mod Refines
pub mod Front
use onwards.Prelude.{
  ℕ, ◌*◌, List, [], ◌∷◌, ◌++◌, ℤ, pos, int16, int32, bits_of, narrow, le_bytes, length, ◌+◌, Bool,
  true, false, ◌==◌, if◌then◌else◌,
}
use onwards.Failure.{M, Run, ok, raised, fault, bind, rethrow, return, ◌>>◌, ◌>>=◌}
use onwards.SendBuffer.{
  SendBuffer, reserve_bytes, receive, receive_value, fill_in_size, fill_in_hdr, get_z, rollback,
}
use onwards.ReceiveBuffer.{ReceiveBuffer, give_value, give_block, give_vec}
use onwards.MarshallingInt.{MarshallingInt, marshal, receive_text, receive_texts, give_string_view}

-- `buf.reserveBytes(n)` where the place is not used
unfoldable pub reserve : ℕ → M SendBuffer (Unit {0})
reserve n b = bind (reserve_bytes (pos n) b) λ _ b. ok tt b

-- back::marshal and exampleMessages::marshal, over the content that `mar` writes. `id` is the byte of
-- the messageID.
unfoldable pub marshal_hdr : ℕ → ℕ → M SendBuffer (Unit {0}) → M SendBuffer (Unit {0})
marshal_hdr id max_length mar b =
    rethrow rollback ((reserve (get_z b + 1) >> mar >> fill_in_hdr (pos max_length) (id ∷ [])) b)

-- The frame of front::marshal, middle::marshal and testing::marshal.
unfoldable pub marshal_sized : ℕ → M SendBuffer (Unit {0}) → M SendBuffer (Unit {0})
marshal_sized max_length mar b =
    rethrow rollback ((reserve (get_z b) >> mar >> fill_in_size (pos max_length)) b)

-- front::marshal: true alone, or false with the texts and an int8_t, given by its byte.
unfoldable pub mar_front : List (List ℕ) → ℕ → M SendBuffer (Unit {0})
mar_front [] b = receive_value (1 ∷ [])
mar_front (s ∷ ss) b = receive_value (0 ∷ []) >> receive_texts (s ∷ ss) >> receive_value (b ∷ [])

unfoldable pub front_marshal : ℕ → List (List ℕ) → ℕ → M SendBuffer (Unit {0})
front_marshal max_length a b = marshal_sized max_length (mar_front a b)

-- middle::marshal: the account number and the path of the middle file
unfoldable pub mar_middle : MarshallingInt → List ℕ → M SendBuffer (Unit {0})
mar_middle a path = marshal a >> receive_text path

unfoldable pub middle_marshal : ℕ → MarshallingInt → List ℕ → M SendBuffer (Unit {0})
middle_marshal max_length a path = marshal_sized max_length (mar_middle a path)

-- receiveBlock of a container of int32_t, given by their bit patterns
abbrev pub words : List ℕ → List ℕ
words [] = []
words (n ∷ ns) = le_bytes 4 n ++ words ns

unfoldable pub receive_block : List ℕ → M SendBuffer (Unit {0})
receive_block c =
    receive_value (le_bytes 4 (bits_of int32 (pos (length c))))
    >> receive (words c) (narrow int32 (pos (length c * 4)))

-- exampleMessages::mar of a vector and a string
unfoldable pub mar_example : List ℕ → List ℕ → M SendBuffer (Unit {0})
mar_example a b = receive_block a >> receive_text b

-- exampleMessages::give of a vector and a string, into an empty vector
unfoldable pub give_example : M ReceiveBuffer (List ℕ × List ℕ)
give_example = do a ← give_vec 4 []; b ← give_string_view; return (a, b)

-- exampleMessages::mar of a set, in the order in which it is gone through
unfoldable pub receive_each : List ℕ → M SendBuffer (Unit {0})
receive_each [] = λ b. ok tt b
receive_each (e ∷ es) = receive_value (le_bytes 4 e) >> receive_each es

unfoldable pub mar_set : List ℕ → M SendBuffer (Unit {0})
mar_set a = receive_value (le_bytes 4 (bits_of int32 (pos (length a)))) >> receive_each a

-- exampleMessages::mar and give of an array of six floats: their bytes as they stand
unfoldable pub mar_array : List ℕ → M SendBuffer (Unit {0})
mar_array a = receive a (pos 24)

unfoldable pub give_array : M ReceiveBuffer (List ℕ)
give_array = give_block 4 (pos 6)
