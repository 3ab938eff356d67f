-- ===== src/Kv/Wire/Frame.antt =====
-- kv/wire/wire.go: the envelope. `new_aead` is ascon.NewAEAD, which refuses a key of a wrong length.
pub mod RoundTrip
use repani.Base.{
  ℕ, ◌+◌, ◌≡◌, ◌<◌, [], ◌∷◌, ◌++◌, length, take, drop, replicate, write_at, Bytes, get_or, ltb,
  ◌==◌, not, if◌then◌else◌, Option, none, some, Result, ok, err,
}
use repani.Kv.Vault.Sizes.{vault_id_size, nonce_size, aead_tag_size}
use repani.Kv.Vault.Aead.{Aead}
use repani.Kv.Wire.Errors.{WireError, short, version, not_opened, aead_key}

abbrev pub frame_version : ℕ
frame_version = 0x01

-- ver(1) + kind(1) + vault_id(16) + nonce(16)
abbrev pub frame_header_size : ℕ
frame_header_size = 1 + 1 + vault_id_size + nonce_size

pub record Header : Type 0 where
  pub kind : ℕ
  pub vault_id : Bytes
  pub nonce : Bytes

-- Header.bytes
unfoldable pub header_bytes : Header → Bytes
header_bytes h =
    let b = replicate frame_header_size 0 in
    let b0 = write_at 0 (frame_version ∷ []) b in
    let b1 = write_at 1 (h.kind ∷ []) b0 in
    let b2 = write_at 2 h.vault_id b1 in write_at (2 + vault_id_size) h.nonce b2

-- ParseHeader
unfoldable pub parse_header : Bytes → Result WireError (Header × Bytes)
parse_header b =
    if ltb (length b) (frame_header_size + aead_tag_size)
    then err short
    else if not (get_or b 0 0 == frame_version)
    then err version
    else ok (
      record {
        kind = get_or b 1 0;
        vault_id = take vault_id_size (drop 2 b);
        nonce = take nonce_size (drop (2 + vault_id_size) b);
      },
      drop frame_header_size b,
    )

module _ (new_aead : Bytes → Option Aead) where
  -- SealFrame
  unfoldable pub seal_frame : Header → Bytes → Bytes → Result WireError Bytes
  seal_frame h k payload = elim (new_aead k) [
    | none ↦ err aead_key
    | some a ↦ ok (header_bytes h ++ a.seal h.nonce payload (header_bytes h))
  ]

  -- OpenFrame
  unfoldable pub open_frame : Bytes → Header → Bytes → Result WireError Bytes
  open_frame k h sealed = elim (new_aead k) [
    | none ↦ err aead_key
    | some a ↦ elim (a.open_sealed h.nonce sealed (header_bytes h)) [
      | none ↦ err not_opened
      | some pt ↦ ok pt
    ]
  ]

pub record IsHeader (h : Header) : Type 0 where
  pub kind_byte : h.kind < 256
  pub vault_id_length : length h.vault_id ≡ vault_id_size
  pub nonce_length : length h.nonce ≡ nonce_size
