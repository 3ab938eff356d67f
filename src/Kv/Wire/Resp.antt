-- ===== src/Kv/Wire/Resp.antt =====
-- kv/wire/wire.go: RESP payloads, and the names of the status bytes.
pub mod RoundTrip
use Prim.Native.String.{String}
use repani.Base.{
  ℕ, ◌+◌, ◌%◌, ◌^◌, ◌<◌, ◌≡◌, List, [], ◌∷◌, length, take, drop, replicate, All, write_at, Bytes,
  ltb, get_or, if◌then◌else◌, Result, ok, err, ◌>>=◌,
}
use repani.Kv.Vault.Sizes.{nonce_size}
use repani.Kv.Vault.Entry.{Entry, IsStorable}
use repani.Kv.Wire.Errors.{WireError, malformed}
use repani.Kv.Wire.Entries.{append_entries, parse_entries}

-- A Status is a byte; these are the constants.
abbrev pub status_ok : ℕ
status_ok = 0x00

abbrev pub status_differ : ℕ
status_differ = 0x01

abbrev pub status_quota : ℕ
status_quota = 0x02

abbrev pub status_bad_request : ℕ
status_bad_request = 0x03

pub record Resp : Type 0 where
  pub status : ℕ
  pub req_nonce : Bytes
  pub entries : List Entry

-- Resp.Marshal
unfoldable pub marshal : Resp → Bytes
marshal resp =
    let out = replicate (1 + nonce_size) 0 in
    let o1 = write_at 0 (resp.status % 2 ^ 8 ∷ []) out in
    let o2 = write_at 1 resp.req_nonce o1 in append_entries o2 resp.entries

-- ParseResp
unfoldable pub parse_resp : Bytes → Result WireError Resp
parse_resp payload =
    if ltb (length payload) (1 + nonce_size)
    then err malformed
    else parse_entries (drop (1 + nonce_size) payload) >>= λ entries. ok (record {
      status = get_or payload 0 0;
      req_nonce = take nonce_size (drop 1 payload);
      entries = entries;
    })

-- A response whose fields hold what their Go types hold, with entries that fit frames.
pub record IsResp (r : Resp) : Type 0 where
  pub status_byte : r.status < 256
  pub nonce_length : length r.req_nonce ≡ nonce_size
  pub storable : All IsStorable r.entries
  pub counted : length r.entries < 2 ^ 32
