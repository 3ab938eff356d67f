-- ===== src/Kv/Vault/Sizes.antt =====
-- The sizes of kv/vault/keys.go, kv/vault/entry.go and ascon/aead.go.
use repani.Base.{ℕ, ◌*◌}

abbrev pub nonce_size : ℕ
nonce_size = 16

abbrev pub entry_id_size : ℕ
entry_id_size = 16

abbrev pub vault_id_size : ℕ
vault_id_size = 16

abbrev pub auth_key_size : ℕ
auth_key_size = 16

abbrev pub root_key_size : ℕ
root_key_size = 20

abbrev pub register_key_size : ℕ
register_key_size = 16

-- ascon.AEADTagSize
abbrev pub aead_tag_size : ℕ
aead_tag_size = 16

-- 8 + nonce_size + 2
abbrev pub entry_header_size : ℕ
entry_header_size = 26

abbrev pub max_entry_bytes : ℕ
max_entry_bytes = 64 * 1024
