-- ===== src/Kv/Store/LogStore/Durable.antt =====
-- A store in step with its log, and what writing at the end of the log and rolling back do to it.
use repani.Base.{
  ◌+◌, ◌≡◌, refl, ap, ◌∙◌, true, List, [], ◌∷◌, ◌++◌, append-nil, map, Bytes, length, take,
  take_all, drop_all, take-append, replicate, All, some, arith,
}
use repani.Kv.Vault.Entry.{Entry, IsStorable}
use repani.Kv.Store.Canonical.{Keyed}
use repani.Kv.Store.Canonical.Unique.{add_all}
use repani.Kv.Store.MemStore.Refines.{view, IsValid}
use repani.Kv.Store.MemStore.Adds.{keyed}
use repani.Kv.Store.LogStore.{LogStore, LogFile, log_magic, file_write, rollback, put_records}
use repani.Kv.Store.LogStore.Records.{
  log_records, records_size, length-log_records, put_records-append,
}

-- The log holds the records of `committed`, and the memory the set that they make.
pub record IsDurable (cxof : Bytes → Bytes → Bytes) (committed : List Entry) (ls : LogStore)
    : Type 0 where
  pub storable : All IsStorable committed
  pub logged :
      ls.file
      ≡ some (record {
        content = log_magic ++ log_records committed;
        pos = 8 + records_size committed;
      })
  pub viewed : view ls.mem ≡ add_all (map (keyed cxof) committed) []
  pub valid : IsValid ls.mem

abbrev pub log_of : List Entry → LogFile
log_of es = record { content = log_magic ++ log_records es; pos = 8 + records_size es }

pub length-log_of :
    (es : List Entry) → All IsStorable es → length (log_of es).content ≡ (log_of es).pos
length-log_of es v = omega (arith, length-log_records es v)

-- A write at the end of the log appends.
pub file_write_end :
    (es : List Entry) (buf : Bytes)
    → All IsStorable es
    → file_write buf (log_of es) ≡ record {
      content = (log_magic ++ log_records es) ++ buf;
      pos = 8 + records_size es + length buf;
    }
file_write_end es buf v =
    let c = log_magic ++ log_records es in
    let n = length-log_of es v in
    rw
      (
        take_all (8 + records_size es) c (omega arith),
        drop_all (8 + records_size es + length buf) c (omega arith),
        append-nil buf,
      )
      refl

-- A rollback whose truncation succeeds restores the log, whatever was written.
pub rollback_restores :
    (es : List Entry) (buf : Bytes)
    → All IsStorable es
    → rollback true (8 + records_size es) (file_write buf (log_of es)) ≡ log_of es
unfolding rollback
rollback_restores es buf v =
    ap
      (λ (f : LogFile). record {
        content = take (8 + records_size es) f.content;
        pos = 8 + records_size es;
      })
      (file_write_end es buf v)
    ∙ ap (λ (t : Bytes). record { content = t; pos = 8 + records_size es })
        (take-append (8 + records_size es) (log_magic ++ log_records es) buf (length-log_of es v))

-- The buffer that Add builds is the records of the new entries.
pub buffer_records :
    (es : List Entry)
    → All IsStorable es
    → put_records es 0 (replicate (records_size es) 0) ≡ log_records es
buffer_records es v = put_records-append es 0 (records_size es) [] v refl refl

pub add_all-append :
    (cxof : Bytes → Bytes → Bytes) (es fs : List Entry)
    → add_all (map (keyed cxof) (es ++ fs)) []
      ≡ add_all (map (keyed cxof) fs) (add_all (map (keyed cxof) es) [])
add_all-append cxof es fs = go es []
  where
    go :
        (es : List Entry) (qs : List Keyed)
        → add_all (map (keyed cxof) (es ++ fs)) qs
          ≡ add_all (map (keyed cxof) fs) (add_all (map (keyed cxof) es) qs)
    go [] qs = refl
    go (e ∷ es) qs = go es _
