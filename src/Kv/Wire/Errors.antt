-- ===== src/Kv/Wire/Errors.antt =====
-- The codec errors of kv/wire/wire.go. `entry` is fmt.Errorf("wire: entry %d: %w", …) and `trailing`
-- is the ErrMalformed that counts bytes left behind the entries; `aead_key` is
-- ascon.ErrAEADKeySize, which SealFrame and OpenFrame pass on.
use repani.Base.{ℕ}
use repani.Kv.Vault.Entry.{EntryError}

pub data WireError : Type 0 where
  short version not_opened bad_op malformed aead_key : WireError
  entry : ℕ → EntryError → WireError
  trailing : ℕ → WireError
