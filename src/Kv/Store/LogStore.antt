-- ===== src/Kv/Store/LogStore.antt =====
-- kv/store/logstore.go: a MemStore behind an append-only log. The file is its bytes and the append
-- offset; what the operating system answers to a write enters as an outcome. The lock, the path and
-- read errors are not modelled: a read of the file succeeds.
pub mod Records
pub mod Recovery
pub mod Reopen
pub mod News
pub mod Durable
pub mod Adds
pub mod Crash
use repani.Base.{
  ℕ, zero, suc, ◌+◌, ◌*◌, ◌%◌, ◌^◌, Bool, true, false, not, ◌||◌, ◌&&◌, List, [], ◌∷◌, ◌++◌, length,
  take, drop, replicate, write_at, Bytes, put_le, get_le, ltb, ◌==◌, if◌then◌else◌, compare_bytes,
  is_eq, Option, none, some, Result, ok, err,
}
use repani.Kv.Vault.Sizes.{max_entry_bytes}
use repani.Kv.Vault.Entry.{Entry, EntryError, size, marshal_to, unmarshal_entry}
use repani.Kv.Vault.Ids.{entry_id}
use repani.Kv.Store.Canonical.{has_id}
use repani.Kv.Store.MemStore.{MemStore, new_mem_store, add_locked, has_entry, add as mem_add}

-- "ASCONKVA"
abbrev pub log_magic : Bytes
log_magic = b'A' ∷ b'S' ∷ b'C' ∷ b'O' ∷ b'N' ∷ b'K' ∷ b'V' ∷ b'A' ∷ []

pub record LogFile : Type 0 where
  pub content : Bytes
  pub pos : ℕ

pub record LogStore : Type 0 where
  pub mem : MemStore
  pub file : Option LogFile

pub data LogError : Type 0 where
  bad_magic closed write_failed sync_failed : LogError

-- What the system does with Add's Write and Sync: both succeed; the write fails after `k` bytes; the
-- write succeeds and the sync fails.
pub data WriteOutcome : Type 0 where
  written : WriteOutcome
  torn : ℕ → WriteOutcome
  unsynced : WriteOutcome

-- Write at the offset, which the log keeps at its end.
abbrev pub file_write : Bytes → LogFile → LogFile
file_write buf f = record {
  content = take f.pos f.content ++ (buf ++ drop (f.pos + length buf) f.content);
  pos = f.pos + length buf;
}

-- Truncate and Seek. `cut` is false where the system refuses the truncation, which rollback ignores.
abbrev pub file_truncate : Bool → ℕ → LogFile → LogFile
file_truncate cut off f = record {
  content = if cut then take off f.content else f.content;
  pos = off;
}

module _ (cxof : Bytes → Bytes → Bytes) where
  -- The loop of Add over its arguments: the ids and entries that are new, and the bytes they take.
  unfoldable pub collect :
      List Entry → MemStore → List Bytes → List Bytes → List Entry → ℕ → List Bytes × List Entry × ℕ
  collect [] m seen ids news total = (ids, news, total)
  collect (e ∷ es) m seen ids news total =
      let id = entry_id cxof e in
      let old = has_id id seen || has_entry id m in
      collect es m (if old then seen else id ∷ seen) (if old then ids else ids ++ id ∷ [])
        (if old then news else news ++ e ∷ []) (if old then total else total + (4 + size e))

  -- The loop that adds the committed entries to the memory store, under their ids.
  unfoldable pub add_ids : List Bytes → List Entry → MemStore → MemStore
  add_ids [] es m = m
  add_ids (i ∷ is) [] m = m
  add_ids (i ∷ is) (e ∷ es) m = add_ids is es (add_locked i e m).0

-- The loop that lays the records into the zeroed buffer.
unfoldable pub put_records : List Entry → ℕ → Bytes → Bytes
put_records [] pos buf = buf
put_records (e ∷ es) pos buf =
    let b1 = write_at pos (put_le 4 (size e % 2 ^ 32)) buf in
    let b2 = take (pos + 4) b1 ++ marshal_to e (drop (pos + 4) b1) in
    put_records es (pos + (4 + size e)) b2

-- rollback
unfoldable pub rollback : Bool → ℕ → LogFile → LogFile
rollback cut off f = file_truncate cut off f

-- What one round of replay's loop finds in the bytes not yet read: nothing, an entry whose body has
-- `rec_len` bytes, or anything else, which is an uncommitted tail.
pub data Found : Type 0 where
  at_end torn_tail : Found
  record_of : Entry → ℕ → Found

unfoldable pub parsed_body : ℕ → Result EntryError (Entry × ℕ) → Found
parsed_body rec_len (err x) = torn_tail
parsed_body rec_len (ok (e, consumed)) =
    if not (consumed == rec_len) then torn_tail else record_of e rec_len

-- The round's reads, up to the entry.
unfoldable pub read_record : Bytes → Found
unfolding parsed_body
read_record rest =
    let rec_len = get_le (take 4 rest) in
    if length rest == 0
    then at_end
    else if ltb (length rest) 4
    then torn_tail
    else if rec_len == 0 || ltb max_entry_bytes rec_len
    then torn_tail
    else if ltb (length (drop 4 rest)) rec_len
    then torn_tail
    else parsed_body rec_len (unmarshal_entry (take rec_len (drop 4 rest)))

module _ (cxof : Bytes → Bytes → Bytes) where
  -- The end of Add, on an open file: the write, the sync, and what follows each outcome.
  unfoldable pub commit :
      WriteOutcome
      → Bool
      → List Bytes
      → List Entry
      → Bytes
      → LogFile
      → LogStore
      → LogStore × Result LogError ℕ
  unfolding add_ids rollback
  commit written cut ids news buf f ls = (
    record { mem = add_ids cxof ids news ls.mem; file = some (file_write buf f) },
    ok (length news),
  )
  commit (torn k) cut ids news buf f ls =
      (record ls { file = some (rollback cut f.pos (file_write (take k buf) f)) }, err write_failed)
  commit unsynced cut ids news buf f ls =
      (record ls { file = some (rollback cut f.pos (file_write buf f)) }, err sync_failed)

  -- Add: `outcome` is the system's answer to the write and the sync, `cut` to rollback's truncation.
  unfoldable pub add : WriteOutcome → Bool → List Entry → LogStore → LogStore × Result LogError ℕ
  unfolding collect put_records commit
  add outcome cut entries ls =
      let (ids, news, total) = collect cxof entries ls.mem [] [] [] 0 in
      if length news == 0 then (ls, ok 0) else elim ls.file [
        | none ↦ (ls, err closed)
        | some f ↦ commit outcome cut ids news (put_records news 0 (replicate total 0)) f ls
      ]

  -- The loop of replay over the bytes not yet read: the store, and where to truncate, if anywhere.
  unfoldable pub replay_loop : ℕ → Bytes → ℕ → MemStore → MemStore × Option ℕ
  replay_loop zero rest offset m = (m, some offset)
  replay_loop (suc fuel) rest offset m = elim (read_record rest) [
    | at_end ↦ (m, none)
    | torn_tail ↦ (m, some offset)
    | record_of e rec_len ↦
        replay_loop fuel (drop (4 + rec_len) rest) (offset + (4 + rec_len))
          (mem_add cxof (e ∷ []) m).0
  ]

  -- replay, with truncateTo or the seek to the end. Each round takes bytes, so one more round than the
  -- file is long is enough.
  -- The truncation is one that succeeds: where it fails, replay returns its error and nothing is opened.
  unfoldable pub replay : Bytes → LogStore
  unfolding replay_loop
  replay content =
      let r = replay_loop (suc (length content)) (drop 8 content) 8 new_mem_store in
      record {
        mem = r.0;
        file = some (elim r.1 [
          | none ↦ record { content = content; pos = length content }
          | some offset ↦ file_truncate true offset (record { content = content; pos = 0 })
        ]);
      }

  -- init on an opened file, and with it OpenLogStore.
  unfoldable pub open_log : Bytes → Result LogError LogStore
  open_log content =
      if length content == 0
      then ok
          (record { mem = new_mem_store; file = some (record { content = log_magic; pos = 8 }) })
      else if ltb (length content) (length log_magic)
      then err bad_magic
      else if not (is_eq (compare_bytes (take 8 content) log_magic))
      then err bad_magic
      else ok (replay content)

-- Close
unfoldable pub close : LogStore → LogStore
close ls = record ls { file = none }
