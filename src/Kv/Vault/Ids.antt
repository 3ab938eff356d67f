-- ===== src/Kv/Vault/Ids.antt =====
-- kv/vault/entry.go and setsync.go: what is hashed. `cxof` is ascon.CXOF filling a 16-byte array from
-- a customization label and a message.
use repani.Base.{◌%◌, ◌^◌, List, [], ◌∷◌, ◌++◌, length, map, Bytes, put_le}
use repani.Kv.Vault.Entry.{Entry, marshal}

-- "kv-eid" and "kv-set"
abbrev pub dom_eid : Bytes
dom_eid = b'k' ∷ b'v' ∷ b'-' ∷ b'e' ∷ b'i' ∷ b'd' ∷ []

abbrev pub dom_set : Bytes
dom_set = b'k' ∷ b'v' ∷ b'-' ∷ b's' ∷ b'e' ∷ b't' ∷ []

append_ids : Bytes → List Bytes → Bytes
append_ids buf [] = buf
append_ids buf (id ∷ ids) = append_ids (buf ++ id) ids

module _ (cxof : Bytes → Bytes → Bytes) where
  -- Entry.ID
  unfoldable pub entry_id : Entry → Bytes
  entry_id e = cxof dom_eid (marshal e)

  -- SetHashIDs
  unfoldable pub set_hash_ids : List Bytes → Bytes
  unfolding append_ids
  set_hash_ids ids = cxof dom_set (append_ids (put_le 4 (length ids % 2 ^ 32)) ids)

  -- SetHash
  unfoldable pub set_hash : List Entry → Bytes
  unfolding set_hash_ids
  set_hash sorted_entries = set_hash_ids (map entry_id sorted_entries)
