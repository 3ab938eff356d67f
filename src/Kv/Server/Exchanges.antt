-- ===== src/Kv/Server/Exchanges.antt =====
-- What a server in memory with one vault answers to pushes and frames.
use repani.Base.{
  inl, IsByte, All, ◌^◌, ◌<◌, ◌≡◌, refl, true, false, [], ◌++◌, Bytes, length, length-take,
  length-append, replicate, some, Result, ok, err, compare_bytes, put_le, arith,
}
use repani.Kv.Samples.{
  first_bytes, both_entries, plain_new_aead, replicate-IsByte, both_entries-IsStorable,
}
use repani.Kv.Vault.Entry.{size, marshal, marshal_to, put_header}
use repani.Kv.Vault.Ids.{entry_id}
use repani.Kv.Store.Canonical.{has_id}
use repani.Kv.Wire.Resp.{Resp, status_ok}
use repani.Kv.Server.Maps.{lookup, delete, set_key}
use repani.Kv.Server.Quotas.{Quotas, with_defaults}
use repani.Kv.Server.State.{Server, new_vault_state, put_state, expired}
use repani.Kv.Server.Load.{new_server}
use repani.Kv.Server.Lifecycle.{create_vault_locked, create_in, created_state, install}
use repani.Kv.Server.Owner.{ensure_vault, add_to}
use repani.Kv.Server.Stores.{vault_add, held_in}
use repani.Kv.Server.Stores.Lawful.{IsGood}
use repani.Kv.Server.Laws.{total_size}
use repani.Kv.Server.Steps.{Reach, next, adds}
use repani.Kv.Server.Replies.{seal_resp}
use repani.Kv.Server.Serve.{serve_push, served}
use repani.Kv.Server.Outcomes.{repush_is_noop}
use repani.Kv.Server.Pushes.{
  validate_new, add_validated_locked, validate_loop, within_quotas, skew_limit, charge,
}
use repani.Kv.Server.Pushes.Validation.{verdict, validate_new-verdict, fresh_of}
use repani.Kv.Store.MemStore.{len, add, add_loop, add_locked, has_entry, place, compare_at}
use repani.Kv.Vault.Keys.{derive_c2s, derive16, frame_nonce, hedged_nonce}
use repani.Kv.Wire.Frame.{Header, seal_frame}
use repani.Kv.Server.State.{ServeError}
use repani.Kv.Server.Answers.{Reads, seal_resp-Reads}
use repani.Kv.Wire.Errors.{WireError}
use repani.Kv.Wire.Sync as Sync
use repani.Kv.Wire.Sync.{SyncReq, blank, hash_req}
use repani.Kv.Server.Requests.{handle_frame-marshal}
use repani.Kv.Server.Frames.{handle_frame, perform}
use repani.Kv.Server.Samples.{
  Store, ops, env, vid, empty_server, one_vault, laws, one_step, vid_served, IsAccounted-of,
  HasAccounts-of, NoOther,
}

small_push : total_size both_entries < 2 ^ 63
unfolding total_size size
small_push = omega arith

abbrev quotas : Quotas
quotas = one_vault.quotas

validate_new-verdict_example :
    validate_new first_bytes ops 5000 quotas (one_vault.heap 0) both_entries true
    ≡ verdict first_bytes ops 5000 quotas (one_vault.heap 0) both_entries true
unfolding ensure_vault create_vault_locked create_in install new_server lookup set_key delete has_id
    created_state new_vault_state put_state total_size size with_defaults len
validate_new-verdict_example =
    validate_new-verdict first_bytes ops 5000 quotas (one_vault.heap 0) both_entries true
      (omega arith) (omega arith) (omega arith)

-- The server with both entries.
abbrev with_both : Server Store
with_both = (add_to first_bytes ops env 0 both_entries one_vault).0

two_steps :
    Reach first_bytes plain_new_aead ops
      (IsGood first_bytes)
      (held_in first_bytes)
      NoOther
      empty_server
      with_both
two_steps = next one_step (adds env 0 both_entries one_vault (omega arith) small_push)

none_new : fresh_of first_bytes ops (with_both.heap 0).s [] both_entries ≡ []
unfolding ensure_vault create_vault_locked create_in install new_server lookup set_key delete has_id
    compare_bytes created_state new_vault_state put_state add_to validate_new validate_loop
    within_quotas skew_limit charge add_validated_locked vault_add add add_loop add_locked has_entry
    with_defaults len size entry_id marshal put_le fresh_of place compare_at marshal_to put_header
none_new = refl

repush_is_noop_example :
    serve_push first_bytes ops env with_both.quotas both_entries (with_both.heap 0)
    ≡ (with_both.heap 0, some (served status_ok))
repush_is_noop_example =
    repush_is_noop first_bytes ops (IsGood first_bytes) (held_in first_bytes) laws env
      with_both.quotas both_entries (with_both.heap 0) (IsAccounted-of with_both two_steps).1
      (HasAccounts-of with_both 0 two_steps) (omega arith) small_push none_new

fills : (label msg : Bytes) → length (first_bytes label msg) ≡ 16
fills label msg =
    omega (arith, length-take 16 (msg ++ replicate 16 0), length-append msg (replicate 16 0))

abbrev answer : Resp
answer = record { status = status_ok; req_nonce = replicate 16 4; entries = both_entries }

abbrev bytes_of : Result ServeError Bytes → Bytes
bytes_of (ok b) = b
bytes_of (err e) = []

abbrev sealed_answer : Bytes
sealed_answer = bytes_of (
    seal_resp first_bytes plain_new_aead env vid (replicate 16 5) (replicate 16 4) status_ok
      both_entries)

was_sealed :
    seal_resp first_bytes plain_new_aead env vid
      (replicate 16 5)
      (replicate 16 4)
      status_ok
      both_entries
    ≡ ok sealed_answer
unfolding seal_resp frame_nonce hedged_nonce seal_frame
was_sealed = refl

seal_resp-Reads_example : Reads plain_new_aead vid (replicate 16 5) answer sealed_answer
seal_resp-Reads_example =
    seal_resp-Reads first_bytes plain_new_aead env vid (replicate 16 5) answer sealed_answer fills
      refl
      (record {
        status_byte = omega arith;
        nonce_length = refl;
        storable = both_entries-IsStorable;
        counted = omega arith;
      })
      (replicate-IsByte 16 4 (omega arith)) was_sealed

-- A PROBE, sealed as its client does.
abbrev probe : SyncReq
probe = record (blank 0) { set_hash = replicate 16 0 }

abbrev probe_header : Header
probe_header = record { kind = 2; vault_id = vid; nonce = replicate 16 4 }

abbrev frame_bytes : Result WireError Bytes → Bytes
frame_bytes (ok b) = b
frame_bytes (err e) = []

abbrev probe_frame : Bytes
probe_frame =
    frame_bytes (seal_frame plain_new_aead probe_header (one_vault.heap 0).c2s (Sync.marshal probe))

probe_sealed :
    seal_frame plain_new_aead probe_header (one_vault.heap 0).c2s (Sync.marshal probe)
    ≡ ok probe_frame
unfolding ensure_vault create_vault_locked create_in install new_server lookup set_key delete has_id
    created_state new_vault_state put_state seal_frame derive_c2s derive16
probe_sealed = refl

probe_bytes : All IsByte (Sync.marshal probe)
unfolding Sync.marshal
probe_bytes = replicate-IsByte 17 0 (omega arith)

still_young : expired 5000 one_vault.quotas (one_vault.heap 0) ≡ false
unfolding ensure_vault create_vault_locked create_in install new_server lookup set_key delete has_id
    created_state new_vault_state put_state expired
still_young = refl

handle_frame-marshal_example :
    handle_frame first_bytes plain_new_aead ops env probe_frame one_vault
    ≡ perform first_bytes plain_new_aead ops env vid (replicate 16 4) 0 probe one_vault
handle_frame-marshal_example =
    handle_frame-marshal first_bytes plain_new_aead ops env probe_header probe probe_frame 0
      one_vault (record { kind_byte = omega arith; vault_id_length = refl; nonce_length = refl })
      refl vid_served still_young (hash_req probe 0 (replicate 16 0) (inl refl) refl refl)
      probe_bytes probe_sealed
