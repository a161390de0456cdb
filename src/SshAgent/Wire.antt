-- ===== src/SshAgent/Wire.antt =====
-- The SSH wire format of src/bin/agentknock/ssh_agent.rs: the cursor that reads it and the
-- functions that write it. A byte is a number; `IsBytes` says that it is below 256.
pub mod RoundTrip
use agentknock_cli.Prelude.{
  ℕ, ◌+◌, ◌*◌, ◌/◌, ◌%◌, ◌^◌, ◌<◌, List, [], ◌∷◌, ◌++◌, Option, none, some, Result, ok, err, ◌>>=◌,
  ltb, leb, if◌then◌else◌, length, take, drop, All, all, true, ◌≡◌, and-eq-true, ltb→lt,
}

abbrev pub Bytes : Type 0
Bytes = List ℕ

abbrev pub IsByte : ℕ → Type 0
IsByte b = b < 256

abbrev pub IsBytes : Bytes → Type 0
IsBytes = All IsByte

-- Why data is invalid: one constructor for each message that the source passes to `invalid_data`
-- or builds with the kind `InvalidData`.
pub data InvalidData : Type 0 where
  truncated_data truncated_string trailing_bytes : InvalidData
  no_algorithm no_key_data invalid_base64 algorithm_mismatch : InvalidData
  invalid_ed25519_key invalid_rsa_key : InvalidData
  unexpected_response unsupported_flags : InvalidData
  empty_session not_user_authentication unsupported_service unsupported_method : InvalidData
  no_signature wrong_algorithm wrong_key invalid_host_key : InvalidData

-- A method of `Cursor` reads from the remaining input and gives the input that it leaves.
abbrev pub Cursor : Type 0 → Type 0
Cursor A = Bytes → Result InvalidData (A × Bytes)

unfoldable pub byte : Cursor ℕ
byte [] = err truncated_data
byte (value ∷ remaining) = ok (value, remaining)

-- `u32::from_be_bytes`
unfoldable pub from_be_bytes : ℕ → ℕ → ℕ → ℕ → ℕ
from_be_bytes a b c d = a * 16777216 + b * 65536 + c * 256 + d

unfoldable pub u32 : Cursor ℕ
u32 (a ∷ b ∷ c ∷ d ∷ remaining) = ok (from_be_bytes a b c d, remaining)
u32 _ = err truncated_data

-- `remaining.get(..length)`
unfoldable pub split_at : ℕ → Cursor Bytes
split_at n remaining =
    if leb n (length remaining)
    then ok (take n remaining, drop n remaining)
    else err truncated_string

unfoldable pub string : Cursor Bytes
unfolding u32 split_at
string input = u32 input >>= λ (n, remaining). split_at n remaining

unfoldable pub end : Bytes → Result InvalidData (Unit {0})
end [] = ok tt
end (_ ∷ _) = err trailing_bytes

-- `u32::to_be_bytes`
unfoldable pub to_be_bytes : ℕ → Bytes
to_be_bytes value =
    (value / 16777216 % 256) ∷ (value / 65536 % 256) ∷ (value / 256 % 256) ∷ (value % 256) ∷ []

unfoldable pub put_u32 : Bytes → ℕ → Bytes
put_u32 output value = output ++ to_be_bytes value

-- `none` is the panic of `expect`: the length does not fit in 32 bits.
unfoldable pub put_string : Bytes → Bytes → Option Bytes
unfolding put_u32
put_string output value =
    if ltb (length value) (2 ^ 32) then some (put_u32 output (length value) ++ value) else none

-- A test for concrete data.
pub IsBytes-all : (bytes : Bytes) → all (λ b. ltb b 256) bytes ≡ true → IsBytes bytes
IsBytes-all [] h = tt
IsBytes-all (b ∷ bytes) h =
    let (here, rest) = and-eq-true (ltb b 256) _ h in (ltb→lt b 256 here, IsBytes-all bytes rest)
