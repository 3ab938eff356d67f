-- ===== src/Kv/Wire/Examples.antt =====
-- Frames and payloads on concrete values.
use repani.Base.{◌≡◌, refl, false, [], ◌∷◌, ◌++◌, replicate, Bytes, get_le, ok, err, arith}
use repani.Kv.Samples.{plain_new_aead, first_entry, both_entries}
use repani.Kv.Vault.Entry.{unmarshal_entry}
use repani.Kv.Wire.Errors.{malformed, bad_op, version, trailing}
use repani.Kv.Wire.Entries.{parse_entries}
use repani.Kv.Wire.Sync.{SyncReq, op_pull, marshal, parse_sync, IsReq}
use repani.Kv.Wire.Sync.RoundTrip.{marshal-parse_sync}
use repani.Kv.Wire.Resp.{Resp, marshal as marshal_resp, parse_resp, IsResp}
use repani.Kv.Wire.Resp.RoundTrip.{marshal-parse_resp}
use repani.Kv.Wire.Register.{parse_register}
use repani.Kv.Wire.Frame.{Header, header_bytes, parse_header, seal_frame, open_frame, IsHeader}
use repani.Kv.Wire.Frame.RoundTrip.{open_frame-seal_frame}

-- Inputs that are refused: an operation without a name, a probe without its hash, a byte behind the
-- last entry, a frame of another version.
parse_sync_bad_op : parse_sync (9 ∷ []) ≡ err bad_op
unfolding parse_sync
parse_sync_bad_op = refl

parse_sync_short_probe : parse_sync (0 ∷ 1 ∷ []) ≡ err malformed
unfolding parse_sync
parse_sync_short_probe = refl

parse_entries_trailing : parse_entries (0 ∷ 0 ∷ 0 ∷ 0 ∷ 7 ∷ []) ≡ err (trailing 1)
unfolding parse_entries get_le
parse_entries_trailing = refl

parse_header_version : parse_header (replicate 50 0) ≡ err version
unfolding parse_header
parse_header_version = refl

abbrev entry_bytes : Bytes
entry_bytes = (5 ∷ replicate 7 0) ++ (replicate 16 1 ++ (16 ∷ 0 ∷ replicate 16 2))

abbrev list_bytes : Bytes
list_bytes = (1 ∷ 0 ∷ 0 ∷ 0 ∷ []) ++ entry_bytes

parse_list_bytes : parse_entries list_bytes ≡ ok (first_entry ∷ [])
unfolding parse_entries unmarshal_entry get_le
parse_list_bytes = refl

abbrev pull : SyncReq
pull = record {
  op = op_pull;
  set_hash = replicate 16 0;
  cur_ts = 5;
  cur_id = replicate 16 1;
  entries = [];
}

abbrev pull_bytes : Bytes
pull_bytes = 1 ∷ 5 ∷ replicate 7 0 ++ replicate 16 1

parse_pull_bytes : parse_sync pull_bytes ≡ ok pull
unfolding parse_sync get_le
parse_pull_bytes = refl

marshal-parse_sync_example : IsReq pull × (marshal pull ≡ pull_bytes)
marshal-parse_sync_example = marshal-parse_sync pull_bytes pull (ground arith) parse_pull_bytes

abbrev answer : Resp
answer = record { status = 1; req_nonce = replicate 16 1; entries = first_entry ∷ [] }

abbrev two_entries : Resp
two_entries = record { status = 1; req_nonce = replicate 16 1; entries = both_entries }

abbrev answer_bytes : Bytes
answer_bytes = 1 ∷ replicate 16 1 ++ list_bytes

parse_answer_bytes : parse_resp answer_bytes ≡ ok answer
unfolding parse_resp parse_entries unmarshal_entry get_le
parse_answer_bytes = refl

marshal-parse_resp_example : IsResp answer × (marshal_resp answer ≡ answer_bytes)
marshal-parse_resp_example =
    marshal-parse_resp answer_bytes answer (ground arith) parse_answer_bytes

abbrev some_key : Bytes
some_key = replicate 16 3

-- The key with a flags byte of zero.
abbrev zero_flags : Bytes
zero_flags = replicate 16 3 ++ 0 ∷ []

parse_zero_flags : parse_register zero_flags ≡ ok (replicate 16 3, false)
unfolding parse_register
parse_zero_flags = refl

abbrev some_header : Header
some_header = record { kind = 1; vault_id = replicate 16 3; nonce = replicate 16 4 }

some_header-IsHeader : IsHeader some_header
some_header-IsHeader = record {
  kind_byte = omega arith;
  vault_id_length = refl;
  nonce_length = refl;
}

abbrev frame_bytes : Bytes
frame_bytes = 1 ∷ 1 ∷ replicate 16 3 ++ (replicate 16 4 ++ replicate 16 0)

parse_frame_bytes : parse_header frame_bytes ≡ ok (some_header, replicate 16 0)
unfolding parse_header
parse_frame_bytes = refl

abbrev sealed_frame : Bytes
sealed_frame = 1 ∷ 1 ∷ replicate 16 3 ++ (replicate 16 4 ++ (7 ∷ replicate 16 0))

seal_frame_runs : seal_frame plain_new_aead some_header (replicate 16 9) (7 ∷ []) ≡ ok sealed_frame
unfolding seal_frame header_bytes
seal_frame_runs = refl

open_frame-seal_frame_example :
    (sealed : Bytes) × (parse_header sealed_frame ≡ ok (some_header, sealed))
    × (open_frame plain_new_aead (replicate 16 9) some_header sealed ≡ ok (7 ∷ []))
open_frame-seal_frame_example =
    open_frame-seal_frame plain_new_aead some_header (replicate 16 9) (7 ∷ []) sealed_frame
      some_header-IsHeader (ground arith) seal_frame_runs
