-- ===== src/SshAgent/Identities.antt =====
-- The list of identities of src/bin/agentknock/ssh_agent.rs: its two packet functions and the
-- answer that puts the selected identity before the upstream agent's.
pub mod Packet
pub mod Merge
use agentknock_cli.Prelude.{
  ℕ, zero, suc, ◌^◌, ltb, if◌then◌else◌, ◌==◌, nat_eq, text_eq, Bool, true, false, ◌||◌, Option,
  none, some, List, [], ◌∷◌, ◌++◌, Result, ok, err, ◌>>=◌, ◌>>◌, guard, any, length, and_then,
}
use agentknock_cli.SshAgent.Wire.{
  Bytes, Cursor, InvalidData, unexpected_response, byte, u32, string, end, put_u32, put_string,
}
use agentknock_cli.SshAgent.Authentication.{KeyKind, SelectedIdentity}

pub record ListedIdentity : Type 0 where
  pub key_blob : Bytes
  pub comment : Bytes

-- The loop of `parse_identities_response`.
unfoldable pub parse_entries : ℕ → Cursor (List ListedIdentity)
parse_entries zero response = ok ([], response)
parse_entries (suc count) response = do
  (key_blob, response1) ← string response
  (comment, response2) ← string response1
  (identities, response3) ← parse_entries count response2
  ok (record { key_blob = key_blob; comment = comment } ∷ identities, response3)

unfoldable pub parse_identities_response : Bytes → Result InvalidData (List ListedIdentity)
parse_identities_response packet = do
  (kind, response) ← byte packet
  guard (kind == 12) unexpected_response
  (count, response1) ← u32 response
  (identities, response2) ← parse_entries count response1
  end response2
  ok identities

-- The loop of `encode_identities_response`; `none` is a panic of `expect`.
unfoldable pub encode_entries : Bytes → List ListedIdentity → Option Bytes
encode_entries response [] = some response
encode_entries response (identity ∷ identities) =
    and_then (put_string response identity.key_blob) λ response1.
      and_then (put_string response1 identity.comment)
        λ response2. encode_entries response2 identities

unfoldable pub encode_identities_response : List ListedIdentity → Option Bytes
encode_identities_response identities =
    if ltb (length identities) (2 ^ 32)
    then encode_entries (put_u32 (12 ∷ []) (length identities)) identities
    else none

-- `seen.contains(key)`
pub contains : Bytes → List Bytes → Bool
contains key seen = any (λ other. key == other) seen

-- `filter(|identity| seen.insert(identity.key_blob))`
pub unseen : List Bytes → List ListedIdentity → List ListedIdentity
unseen seen [] = []
unseen seen (identity ∷ identities) = elim (contains identity.key_blob seen) [
  | true ↦ unseen seen identities
  | false ↦ identity ∷ unseen (identity.key_blob ∷ seen) identities
]

-- The upstream agent's entries: none if it does not answer, or not in the form of the protocol.
pub upstream_entries : Option Bytes → List ListedIdentity
upstream_entries none = []
upstream_entries (some upstream) = elim (parse_identities_response upstream) [
  | ok identities ↦ identities
  | err _ ↦ []
]

module _ (selected : SelectedIdentity) where
  -- The selected identity is listed if its key is of a known kind.
  pub selected_entries : Option KeyKind → List ListedIdentity
  selected_entries none = []
  selected_entries (some _) =
      record { key_blob = selected.key_blob; comment = selected.comment } ∷ []

  pub listed_identities : Option Bytes → List ListedIdentity
  listed_identities upstream =
      selected_entries selected.key_kind
      ++ unseen (selected.key_blob ∷ []) (upstream_entries upstream)

  pub identities_response : Option Bytes → Option Bytes
  identities_response upstream = encode_identities_response (listed_identities upstream)
