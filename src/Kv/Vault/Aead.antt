-- ===== src/Kv/Vault/Aead.antt =====
-- The cipher that kv/vault and kv/wire take from ascon/aead.go: one keyed AEAD value.
-- Its laws are what a sealed entry and a sealed frame rely on: a tag of 16 bytes, and that Open
-- under the same nonce and associated data returns what Seal was given.
use repani.Base.{◌+◌, ◌≡◌, length, Bytes, IsByte, All, Option, some}
use repani.Kv.Vault.Sizes.{aead_tag_size}

pub record Aead : Type 0 where
  pub seal : Bytes → Bytes → Bytes → Bytes
  pub open_sealed : Bytes → Bytes → Bytes → Option Bytes
  pub length-seal : (nonce pt ad : Bytes) → length (seal nonce pt ad) ≡ length pt + aead_tag_size
  pub seal-IsByte : (nonce pt ad : Bytes) → All IsByte pt → All IsByte (seal nonce pt ad)
  pub open-seal :
      (nonce pt ad : Bytes) → All IsByte pt → open_sealed nonce (seal nonce pt ad) ad ≡ some pt
