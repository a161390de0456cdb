-- ===== src/Tests/Config.antt =====
-- A pending pairing, and a run in which a system call fails.
use agentknock_cli.Prelude.{
  ℕ, ok, List, Bool, inl, codes, ◌≡◌, refl, sym, ap, some-injective, true, false, Option, none,
  some, [], ◌∷◌, text_discrete, ℕ_discrete,
}
use agentknock_cli.Maps.{get}
use agentknock_cli.Config.Reads.{
  bool, string, number, Document, object, PairingFile, StoredPairing, Faults, field, is_true,
  is_pending, call, lock, validate_permissions, read_pairing_file, read_pending_pairing_file,
  matches_client, is_string, read_stored_pairing, validate_pairing,
}
use agentknock_cli.Config.Changes.{
  Commit, finish_pending_pairing, abort_pending_pairing, write_pending_pairing, settle,
  write_pairing_file, change_fields, write_changed, without,
}
use agentknock_cli.Config.Readers.{
  read_pairing_from, read_pairing_status, answered, read_pairing_status-status,
  read_pairing_from-active,
}
use agentknock_cli.Config.Lifecycle.{status, active, Leads, IsCommit, IsSecure}
use agentknock_cli.Config.Success.{start-finish-abort}
use agentknock_cli.Config.Transitions.{
  finish, Step, DecodesPending, Operation, apply_all, apply_all-IsSecure, apply, apply-Leads,
  change,
}

-- A decoder that reads the field `pending` alone.
pub decode : Document → Option StoredPairing
unfolding is_pending
decode document = some (record {
  pending = is_pending document;
  device_id = [];
  client_id = [];
  client_token = [];
  client_psk = [];
  device_key = [];
  rotated_at = 0;
  rotation_key = none;
})

decode-DecodesPending : DecodesPending decode
unfolding decode
decode-DecodesPending document pairing h =
    sym (ap (λ (p : StoredPairing). p.pending) (some-injective h))

abbrev pub pending_file : Option PairingFile
pending_file = some (record {
  mode = 384;
  contents =
      some (object ((codes "client_id", string (codes "C1")) ∷ (codes "pending", bool true) ∷ []));
})

-- The sixth system call fails: the new file can't be opened.
abbrev faults : Faults
faults = false ∷ false ∷ false ∷ false ∷ false ∷ true ∷ []

-- The committed file has the mode that was asked for.
abbrev pub commit : Commit
commit file mode document = record { mode = mode; contents = some document }

commit-IsCommit : IsCommit commit
commit-IsCommit = record {
  holds = λ file mode document. refl;
  creates = λ mode document. refl;
  replaces = λ file mode document. inl refl;
}

apply-Leads_example :
    Leads
      (Step (finish (codes "C1")))
      pending_file
      (apply decode commit (finish (codes "C1")) true pending_file faults)
apply-Leads_example =
    apply-Leads decode decode-DecodesPending commit commit-IsCommit (finish (codes "C1")) true
      pending_file faults tt

abbrev operations : List (Operation × Bool × Faults)
operations = (finish (codes "C1"), true, faults) ∷ (finish (codes "C1"), true, []) ∷ []

apply_all-IsSecure_example : IsSecure (apply_all decode commit operations pending_file)
apply_all-IsSecure_example =
    apply_all-IsSecure decode decode-DecodesPending commit commit-IsCommit operations (tt, (tt, tt))
      pending_file refl

failed : apply decode commit (finish (codes "C1")) true pending_file faults ≡ pending_file
unfolding apply change finish_pending_pairing settle write_pairing_file write_changed without lock
    call read_pending_pairing_file read_pairing_file validate_permissions is_pending is_true field
    get matches_client is_string text_discrete ℕ_discrete
failed = refl

-- What `start` writes, less the fields that no operation reads.
abbrev encode : ℕ → Document
encode rotated_at = object (
    (codes "client_id", string (codes "C1"))
    ∷ (codes "pending", bool true)
    ∷ (codes "rotated_at", number rotated_at)
    ∷ [])

encode-pending : is_pending (encode 7) ≡ true
unfolding is_pending is_true field get text_discrete ℕ_discrete
encode-pending = refl

encode-client : is_string (codes "C1") (field (codes "client_id") (encode 7)) ≡ true
unfolding is_string field get text_discrete ℕ_discrete
encode-client = refl

abbrev started : PairingFile
started = commit none 384 (encode 7)

start-finish-abort_example :
    (settle commit none (write_pending_pairing decode encode (ok 7) none [])
      ≡ (ok tt, some started))
    × (settle commit (some started) (finish_pending_pairing (codes "C1") true (some started) []) ≡ (
      ok tt,
      some (commit (some started) 384 (change_fields (without (codes "pending")) (encode 7))),
    ))
    × (settle commit
          (some started)
          (abort_pending_pairing (some (codes "C1")) true (some started) [])
        ≡ (ok tt, none))
start-finish-abort_example =
    start-finish-abort decode commit commit-IsCommit encode 7 (codes "C1") encode-pending
      encode-client started refl

abbrev active_file : Option PairingFile
active_file = some (record { mode = 384; contents = some (object []) })

active-run : read_pairing_status decode active_file [] ≡ (ok (some false), [])
unfolding read_pairing_status read_stored_pairing decode read_pairing_file validate_permissions call
    is_pending is_true field get
active-run = refl

read_pairing_status-status_example : status active_file ≡ answered (some false)
read_pairing_status-status_example =
    read_pairing_status-status decode decode-DecodesPending active_file [] (some false) []
      active-run

abbrev read_pairing : StoredPairing
read_pairing = record {
  pending = false;
  device_id = [];
  client_id = [];
  client_token = [];
  client_psk = [];
  device_key = [];
  rotated_at = 0;
  rotation_key = none;
}

read-run : read_pairing_from decode active_file [] ≡ (ok read_pairing, [])
unfolding read_pairing_from read_stored_pairing decode read_pairing_file validate_permissions
    validate_pairing call is_pending is_true field get
read-run = refl

read_pairing_from-active_example : (status active_file ≡ active) × (read_pairing.pending ≡ false)
read_pairing_from-active_example =
    read_pairing_from-active decode decode-DecodesPending active_file [] read_pairing [] read-run
