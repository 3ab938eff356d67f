-- ===== src/Kv/Vault/Keys.antt =====
-- kv/vault/keys.go and nonce.go: the derived keys and the hedged nonces. `cxof` is ascon.CXOF filling
-- a 16-byte array; random bytes and the clock are arguments.
use repani.Base.{
  ℕ, ◌%◌, ◌^◌, [], ◌∷◌, ◌++◌, length, Bytes, put_le, ◌==◌, if◌then◌else◌, Option, none, some,
}
use repani.Base.Hex.{hex_encode, hex_decode}
use repani.Kv.Vault.Sizes.{vault_id_size}

-- "kv-aead", "kv-vid", "kv-auth", "kv-c2s", "kv-s2c", "kv-reg", "kv-fnon", "kv-enon"
abbrev pub dom_aead : Bytes
dom_aead = b'k' ∷ b'v' ∷ b'-' ∷ b'a' ∷ b'e' ∷ b'a' ∷ b'd' ∷ []

abbrev pub dom_vid : Bytes
dom_vid = b'k' ∷ b'v' ∷ b'-' ∷ b'v' ∷ b'i' ∷ b'd' ∷ []

abbrev pub dom_auth : Bytes
dom_auth = b'k' ∷ b'v' ∷ b'-' ∷ b'a' ∷ b'u' ∷ b't' ∷ b'h' ∷ []

abbrev pub dom_c2s : Bytes
dom_c2s = b'k' ∷ b'v' ∷ b'-' ∷ b'c' ∷ b'2' ∷ b's' ∷ []

abbrev pub dom_s2c : Bytes
dom_s2c = b'k' ∷ b'v' ∷ b'-' ∷ b's' ∷ b'2' ∷ b'c' ∷ []

abbrev pub dom_reg : Bytes
dom_reg = b'k' ∷ b'v' ∷ b'-' ∷ b'r' ∷ b'e' ∷ b'g' ∷ []

abbrev pub dom_fn : Bytes
dom_fn = b'k' ∷ b'v' ∷ b'-' ∷ b'f' ∷ b'n' ∷ b'o' ∷ b'n' ∷ []

abbrev pub dom_en : Bytes
dom_en = b'k' ∷ b'v' ∷ b'-' ∷ b'e' ∷ b'n' ∷ b'o' ∷ b'n' ∷ []

module _ (cxof : Bytes → Bytes → Bytes) where
  -- derive16
  unfoldable pub derive16 : Bytes → Bytes → Bytes
  derive16 dom material = cxof dom material

  unfoldable pub derive_aead_key : Bytes → Bytes
  derive_aead_key rk = derive16 dom_aead rk

  unfoldable pub derive_vault_id : Bytes → Bytes
  derive_vault_id rk = derive16 dom_vid rk

  unfoldable pub derive_auth_key : Bytes → Bytes
  derive_auth_key rk = derive16 dom_auth rk

  unfoldable pub derive_c2s : Bytes → Bytes
  derive_c2s ak = derive16 dom_c2s ak

  unfoldable pub derive_s2c : Bytes → Bytes
  derive_s2c ak = derive16 dom_s2c ak

  unfoldable pub derive_reg_key : Bytes → Bytes
  derive_reg_key rk = derive16 dom_reg rk

  -- hedgedNonce: `random` is what crypto/rand gives, if it does not fail.
  unfoldable pub hedged_nonce : Bytes → Bytes → ℕ → Option Bytes → Option Bytes
  hedged_nonce dom context unix_nano none = none
  hedged_nonce dom context unix_nano (some r) =
      some (cxof dom ((context ++ put_le 8 (unix_nano % 2 ^ 64)) ++ r))

  -- FrameNonce
  unfoldable pub frame_nonce : Bytes → ℕ → Option Bytes → Option Bytes
  unfolding hedged_nonce
  frame_nonce vid unix_nano random = hedged_nonce dom_fn vid unix_nano random

  -- EntryNonce
  unfoldable pub entry_nonce : ℕ → Option Bytes → Option Bytes
  unfolding hedged_nonce
  entry_nonce unix_nano random = hedged_nonce dom_en [] unix_nano random

-- VaultID.String
unfoldable pub vault_id_string : Bytes → Bytes
vault_id_string v = hex_encode v

-- ParseVaultID
unfoldable pub parse_vault_id : Bytes → Option Bytes
parse_vault_id s = elim (hex_decode s) [
  | none ↦ none
  | some b ↦ if length b == vault_id_size then some b else none
]
