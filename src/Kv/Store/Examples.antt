-- ===== src/Kv/Store/Examples.antt =====
-- Stores of two entries: what they hold, page out, and bring back from a log.
use repani.Base.{
  ◌≡◌, ◌≢◌, ◌≤◌, ◌↔◌, inl, inr, refl, ap, sym, ◌∙◌, true, false, not, [], ◌∷◌, ◌++◌, map, length,
  replicate, take, ok, err, arith, ◌==◌, if◌then◌else◌, get_le, put_le, compare_bytes,
}
use repani.Kv.Samples.{
  first_bytes, first_entry, second_entry, both_entries, both_entries-IsStorable,
  first_entry-IsStorable, second_entry-IsStorable,
}
use repani.Kv.Vault.Entry.{size, marshal}
use repani.Kv.Vault.Ids.{entry_id, set_hash_ids}
use repani.Kv.Store.Canonical
use repani.Kv.Store.Canonical.{Keyed, has_id, ids, entries}
use repani.Kv.Store.Canonical.Unique.{Holds, NoCollision, add_all}
use repani.Kv.Store.MemStore.{
  MemStore, new_mem_store, has_entry, add_locked, add, set_hash, sorted, entries_after,
}
use repani.Kv.Store.MemStore.Refines.{view, IsValid, new_mem_store-IsValid, add_locked-refines}
use repani.Kv.Store.MemStore.Adds.{keyed, IsCached, add-refines, set_hash_keeps, add-converges}
use repani.Kv.Store.MemStore.Paging.{after, page, cursor, entries_after-page}
use repani.Kv.Store.MemStore.Pages.{IsPage, entries_after-IsPage}
use repani.Kv.Store.LogStore
use repani.Kv.Store.LogStore.{
  LogStore as Log, LogError, written, torn, unsynced, write_failed, sync_failed, log_magic,
  open_log,
}
use repani.Kv.Store.LogStore.Records.{log_records, records_size}
use repani.Kv.Store.LogStore.Recovery.{whole_within}
use repani.Kv.Store.LogStore.Reopen.{recovered, open_log-cut}
use repani.Kv.Store.LogStore.News.{new_of}
use repani.Kv.Store.LogStore.Durable.{IsDurable}
use repani.Kv.Store.LogStore.Adds.{IsAdded, add-written, add-fails}
use repani.Kv.Store.LogStore.Crash.{
  on_disk, new_mem_store-IsCached, recovered-IsDurable, open_log-clean, add-crash,
}

add_locked-refines_example :
    (view (add_locked (replicate 16 7) first_entry new_mem_store).0
      ≡ Canonical.add (record { id = replicate 16 7; entry = first_entry }) [])
    × ((add_locked (replicate 16 7) first_entry new_mem_store).1 ≡ not (has_id (replicate 16 7) []))
    × IsValid (add_locked (replicate 16 7) first_entry new_mem_store).0
add_locked-refines_example =
    add_locked-refines (replicate 16 7) first_entry new_mem_store new_mem_store-IsValid

add-refines_example :
    (view (add first_bytes both_entries new_mem_store).0
      ≡ add_all (map (keyed first_bytes) both_entries) [])
    × IsValid (add first_bytes both_entries new_mem_store).0
    × IsCached first_bytes (add first_bytes both_entries new_mem_store).0
add-refines_example =
    add-refines first_bytes both_entries new_mem_store new_mem_store-IsValid
      (new_mem_store-IsCached first_bytes)

-- A store that was given both.
abbrev full : MemStore
full = (add first_bytes both_entries new_mem_store).0

full-IsValid : IsValid full
full-IsValid =
    (add-refines first_bytes both_entries new_mem_store new_mem_store-IsValid
      (new_mem_store-IsCached first_bytes)).1

full-IsCached : IsCached first_bytes full
full-IsCached =
    (add-refines first_bytes both_entries new_mem_store new_mem_store-IsValid
      (new_mem_store-IsCached first_bytes)).2

set_hash_keeps_example :
    ((set_hash first_bytes full).1 ≡ set_hash_ids first_bytes (ids (view full)))
    × (view (set_hash first_bytes full).0 ≡ view full)
    × IsValid (set_hash first_bytes full).0
    × IsCached first_bytes (set_hash first_bytes full).0
set_hash_keeps_example = set_hash_keeps first_bytes full full-IsValid full-IsCached

ids_differ : entry_id first_bytes first_entry ≢ entry_id first_bytes second_entry
unfolding entry_id marshal put_le get_le
ids_differ h = absurd (omega (arith, ap (λ b. get_le (take 1 b)) h))

both-NoCollision : NoCollision (map (keyed first_bytes) both_entries)
both-NoCollision a b (inl p) (inl q) same = p ∙ sym q
both-NoCollision a b (inl p) (inr (inl q)) same =
    absurd (ids_differ (ap (λ (k : Keyed). k.id) (sym p) ∙ same ∙ ap (λ (k : Keyed). k.id) q))
both-NoCollision a b (inr (inl p)) (inl q) same =
    absurd (ids_differ (sym (ap (λ (k : Keyed). k.id) (sym p) ∙ same ∙ ap (λ (k : Keyed). k.id) q)))
both-NoCollision a b (inr (inl p)) (inr (inl q)) same = p ∙ sym q
both-NoCollision a b (inl p) (inr (inr none_left)) same = absurd none_left
both-NoCollision a b (inr (inl p)) (inr (inr none_left)) same = absurd none_left
both-NoCollision a b (inr (inr none_left)) q same = absurd none_left

swapped :
    (k : Keyed)
    → Holds k (map (keyed first_bytes) both_entries)
      ↔ Holds k (map (keyed first_bytes) (second_entry ∷ first_entry ∷ []))
swapped k = ground arith

add-converges_example :
    (sorted full ≡ sorted (add first_bytes (second_entry ∷ first_entry ∷ []) new_mem_store).0)
    × ((set_hash first_bytes full).1
        ≡ (set_hash first_bytes
            (add first_bytes (second_entry ∷ first_entry ∷ []) new_mem_store).0).1)
add-converges_example =
    add-converges first_bytes both_entries (second_entry ∷ first_entry ∷ []) both-NoCollision
      swapped

entries_after-page_example :
    entries_after 3 (replicate 16 0) 50 full
    ≡ page 50 (entries (after (cursor 3 (replicate 16 0)) (view full)))
entries_after-page_example = entries_after-page 3 (replicate 16 0) 50 full full-IsValid

entries_after-IsPage_example :
    IsPage 50
      (entries (after (cursor 3 (replicate 16 0)) (view full)))
      (entries_after 3 (replicate 16 0) 50 full)
entries_after-IsPage_example = entries_after-IsPage 3 (replicate 16 0) 50 full full-IsValid

-- A log with one entry, and one more that is not in it.
abbrev one_logged : Log
one_logged = recovered first_bytes (first_entry ∷ [])

one_logged-IsDurable : IsDurable first_bytes (first_entry ∷ []) one_logged
one_logged-IsDurable =
    recovered-IsDurable first_bytes (first_entry ∷ []) (first_entry-IsStorable, tt)

fifty_fits : 50 ≤ records_size both_entries
unfolding size
fifty_fits = omega arith

open_log-cut_example :
    open_log first_bytes (log_magic ++ take 50 (log_records both_entries))
    ≡ ok (recovered first_bytes (whole_within 50 both_entries))
open_log-cut_example = open_log-cut first_bytes both_entries 50 both_entries-IsStorable fifty_fits

add-written_example :
    IsAdded first_bytes
      (second_entry ∷ [])
      (first_entry ∷ [])
      one_logged
      (second_entry-IsStorable, tt)
      one_logged-IsDurable
      (LogStore.add first_bytes written true (second_entry ∷ []) one_logged)
add-written_example =
    add-written first_bytes (second_entry ∷ []) (first_entry ∷ []) one_logged
      (second_entry-IsStorable, tt) one_logged-IsDurable true

add-fails_example :
    (LogStore.add first_bytes (torn 7) true (second_entry ∷ []) one_logged ≡ (
      one_logged,
      if length (new_of first_bytes (second_entry ∷ []) one_logged.mem []) == 0
          then ok 0
          else err write_failed,
    ))
    × (LogStore.add first_bytes unsynced true (second_entry ∷ []) one_logged ≡ (
      one_logged,
      if length (new_of first_bytes (second_entry ∷ []) one_logged.mem []) == 0
          then ok 0
          else err sync_failed,
    ))
add-fails_example =
    add-fails first_bytes (second_entry ∷ []) (first_entry ∷ []) one_logged
      (second_entry-IsStorable, tt) one_logged-IsDurable 7

open_log-clean_example :
    (open_log first_bytes (on_disk one_logged) ≡ ok (recovered first_bytes (first_entry ∷ [])))
    × IsDurable first_bytes (first_entry ∷ []) (recovered first_bytes (first_entry ∷ []))
    × (view (recovered first_bytes (first_entry ∷ [])).mem ≡ view one_logged.mem)
open_log-clean_example =
    open_log-clean first_bytes (first_entry ∷ []) one_logged one_logged-IsDurable

one_new : new_of first_bytes (second_entry ∷ []) one_logged.mem [] ≡ second_entry ∷ []
unfolding new_of entry_id marshal put_le add add_locked has_id has_entry compare_bytes
one_new = refl

seven_fit : 7 ≤ records_size (new_of first_bytes (second_entry ∷ []) one_logged.mem [])
seven_fit = rw one_new (unfold size in omega arith)

add-crash_example :
    (open_log first_bytes
        (on_disk (LogStore.add first_bytes (torn 7) false (second_entry ∷ []) one_logged).0)
      ≡ ok (
          recovered first_bytes (
            first_entry
            ∷ whole_within 7 (new_of first_bytes (second_entry ∷ []) one_logged.mem []))))
    × IsDurable first_bytes
        (first_entry ∷ whole_within 7 (new_of first_bytes (second_entry ∷ []) one_logged.mem []))
        (recovered first_bytes
          (first_entry ∷ whole_within 7 (new_of first_bytes (second_entry ∷ []) one_logged.mem [])))
add-crash_example =
    add-crash first_bytes (second_entry ∷ []) (first_entry ∷ []) one_logged 7
      (second_entry-IsStorable, tt) one_logged-IsDurable seven_fit
