-- ===== src/Kv/Server/Record.antt =====
-- kv/server/record.go: a vault's record, its times in milliseconds. The text that encode and
-- decodeRecord exchange is package fact's and not modelled.
use repani.Base.{ℕ, ◌-◌, ◌%◌, Bool, Bytes, length, ◌==◌, if◌then◌else◌, Option, none, some}
use repani.Base.Hex.{hex_decode}
use repani.Kv.Vault.Sizes.{auth_key_size}

pub record VaultRecord : Type 0 where
  pub auth_key : Option Bytes
  pub ephemeral : Bool
  pub created : ℕ
  pub ended : Option ℕ
  pub note : Option Bytes

-- recordTime, of a time after 1970
unfoldable pub record_time : ℕ → ℕ
record_time ms = ms - ms % 1000

-- ended
unfoldable pub ended_record : ℕ → Bytes → VaultRecord → VaultRecord
ended_record ms note r = record r {
  ended = some (record_time ms);
  note = if length note == 0 then r.note else some note;
}

-- authKey: none is its error.
unfoldable pub record_auth_key : VaultRecord → Option Bytes
record_auth_key r = elim r.auth_key [
  | none ↦ none
  | some text ↦ elim (hex_decode text) [
    | none ↦ none
    | some b ↦ if length b == auth_key_size then some b else none
  ]
]
