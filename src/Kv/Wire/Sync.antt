-- ===== src/Kv/Wire/Sync.antt =====
-- kv/wire/wire.go: SYNC payloads. The operation is a byte, as in the source, since Marshal and
-- ParseSync differ on a byte that is no operation.
pub mod RoundTrip
use repani.Base.{
  ℕ, ◌+◌, ◌^◌, ◌<◌, ◌≡◌, List, [], ◌∷◌, ◌++◌, ◌||◌, ◌⊎◌, length, take, drop, replicate, All,
  write_at, Bytes, IsByte, put_le, get_le, ltb, ◌==◌, not, if◌then◌else◌, Result, ok, err, ◌>>=◌,
}
use repani.Kv.Vault.Sizes.{entry_id_size}
use repani.Kv.Vault.Entry.{Entry, IsStorable}
use repani.Kv.Wire.Errors.{WireError, bad_op, malformed}
use repani.Kv.Wire.Entries.{append_entries, parse_entries}

abbrev pub op_probe : ℕ
op_probe = 0x00

abbrev pub op_pull : ℕ
op_pull = 0x01

abbrev pub op_push : ℕ
op_push = 0x02

abbrev pub op_drop : ℕ
op_drop = 0x03

abbrev pub op_wait : ℕ
op_wait = 0x04

-- CursorSize: ts_ms(8) || entry_id(16)
abbrev pub cursor_size : ℕ
cursor_size = 8 + entry_id_size

pub record SyncReq : Type 0 where
  pub op : ℕ
  pub set_hash : Bytes
  pub cur_ts : ℕ
  pub cur_id : Bytes
  pub entries : List Entry

-- SyncReq.Marshal
unfoldable pub marshal : SyncReq → Bytes
marshal r =
    if r.op == op_probe || r.op == op_wait
    then write_at 1 r.set_hash (write_at 0 (r.op ∷ []) (replicate (1 + 16) 0))
    else if r.op == op_pull
    then (let out = write_at 0 (op_pull ∷ []) (replicate (1 + cursor_size) 0) in
        write_at 9 r.cur_id (write_at 1 (put_le 8 r.cur_ts) out))
    else if r.op == op_drop
    then op_drop ∷ []
    else append_entries (op_push ∷ []) r.entries

-- `var r SyncReq` with its operation set.
abbrev pub blank : ℕ → SyncReq
blank op = record {
  op = op;
  set_hash = replicate 16 0;
  cur_ts = 0;
  cur_id = replicate entry_id_size 0;
  entries = [];
}

parse_body : ℕ → Bytes → Result WireError SyncReq
parse_body op body =
    if op == op_probe || op == op_wait
    then (if not (length body == 16)
        then err malformed
        else ok (record (blank op) { set_hash = write_at 0 body (replicate 16 0) }))
    else if op == op_pull
    then (if not (length body == cursor_size)
        then err malformed
        else ok (record (blank op) {
          cur_ts = get_le (take 8 body);
          cur_id = write_at 0 (drop 8 body) (replicate entry_id_size 0);
        }))
    else if op == op_push
    then (do entries ← parse_entries body; ok (record (blank op) { entries = entries }))
    else if op == op_drop
    then (if not (length body == 0) then err malformed else ok (blank op))
    else err bad_op

-- ParseSync
unfoldable pub parse_sync : Bytes → Result WireError SyncReq
unfolding parse_body
parse_sync [] = err malformed
parse_sync (op ∷ body) = parse_body op body

-- A request as the sender of each operation fills it: the fields of the operation hold what their Go
-- types hold, and the others are zero.
pub data IsReq : SyncReq → Type 0 where
  hash_req :
      (r : SyncReq) (op : ℕ) (h : Bytes)
      → (op ≡ op_probe) ⊎ (op ≡ op_wait)
      → length h ≡ 16
      → r ≡ record (blank op) { set_hash = h }
      → IsReq r
  pull_req :
      (r : SyncReq) (ts : ℕ) (id : Bytes)
      → ts < 2 ^ 64
      → length id ≡ entry_id_size
      → r ≡ record (blank op_pull) { cur_ts = ts; cur_id = id }
      → IsReq r
  push_req :
      (r : SyncReq) (es : List Entry)
      → All IsStorable es
      → length es < 2 ^ 32
      → r ≡ record (blank op_push) { entries = es }
      → IsReq r
  drop_req : (r : SyncReq) → r ≡ blank op_drop → IsReq r
