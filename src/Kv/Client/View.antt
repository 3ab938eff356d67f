-- ===== src/Kv/Client/View.antt =====
-- kv/client/client.go: the local writes and reads of a client. Its store.Store is a MemStore, `aead` is
-- the AEAD of its RootKey and `cxof` ascon.CXOF; the clock and what EntryNonce gives are arguments. The
-- view is the Go map as an association list.
use repani.Base.{
  ℕ, ◌+◌, ◌%◌, ◌^◌, Bool, true, false, not, List, [], ◌∷◌, ◌++◌, Bytes, length, leb, ltb, ◌==◌,
  if◌then◌else◌, compare_bytes, Option, none, some, Result, ok, err,
}
use Prim.Native.Nat.{Ordering, gt}
use repani.Kv.Vault.Aead.{Aead}
use repani.Kv.Vault.Entry.{Entry}
use repani.Kv.Vault.Plaintext.{SealError, OpenError, seal, open_entry}
use repani.Kv.Vault.Ids.{entry_id}
use repani.Kv.Store.MemStore.{MemStore, add, appended}
use repani.Kv.Server.Maps.{lookup, set_key}

-- keyValue
pub record KeyValue : Type 0 where
  pub value : Bytes
  pub fmt : ℕ
  pub ts : ℕ
  pub id : Bytes
  pub tomb : Bool

abbrev pub View : Type 0
View = List (Bytes × KeyValue)

pub data ClientError : Type 0 where
  empty_value : ClientError
  not_sealed : SealError → ClientError

-- A key of PutMany's map with its value, the clock when it is written, and its nonce.
pub record Pair : Type 0 where
  pub key : Bytes
  pub value : Bytes
  pub now_ms : ℕ
  pub nonce : Option Bytes

-- The fields of Client that its writes and reads use.
pub record Client : Type 0 where
  pub store : MemStore
  pub last_ts : ℕ
  pub recent : List Entry
  pub view : View
  pub folded : ℕ

abbrev pub fmt_raw : ℕ
fmt_raw = 0

unfoldable pub wrap_value : ℕ → Bytes → Bytes
wrap_value fmt_tag value = fmt_tag ∷ value

unfoldable pub parse_value : Bytes → ℕ × Bytes × Bool
parse_value [] = (0, [], true)
parse_value (tag ∷ value) = (tag, value, false)

abbrev pub is_gt : Ordering → Bool
is_gt gt = true
is_gt _ = false

unfoldable pub pos_after : ℕ → Bytes → ℕ → Bytes → Bool
pos_after ts id base_ts base_id =
    if not (ts == base_ts) then ltb base_ts ts else is_gt (compare_bytes id base_id)

-- New
unfoldable pub new_client : MemStore → Client
new_client s = record { store = s; last_ts = 0; recent = []; view = []; folded = 0 }

unfoldable pub next_ts : ℕ → Client → Client × ℕ
next_ts now_ms c =
    let now = if leb now_ms c.last_ts then (c.last_ts + 1) % 2 ^ 64 else now_ms in
    (record c { last_ts = now }, now)

-- Whether the key already has a value that the one of `e` does not come after.
unfoldable pub is_superseded : Option KeyValue → ℕ → Bytes → Bool
is_superseded none ts id = false
is_superseded (some cur) ts id = not (pos_after ts id cur.ts cur.id)

-- The value that Get returns for what the view has, if it is live.
unfoldable pub live_value : Option KeyValue → Option Bytes
live_value none = none
live_value (some kv) = if kv.tomb then none else some kv.value

module _ (cxof : Bytes → Bytes → Bytes) (aead : Aead) where
  unfoldable pub take_opened : Entry → Result OpenError (Bytes × Bytes) → View → View
  take_opened e (err _) view = view
  take_opened e (ok (k, sv)) view =
      let id = entry_id cxof e in
      if is_superseded (lookup k view) e.ts_ms id
      then view
      else let p = parse_value sv in
        set_key k (record { value = p.1; fmt = p.0; ts = e.ts_ms; id = id; tomb = p.2 }) view

  -- The loop of foldLocked.
  unfoldable pub fold_loop : List Entry → View → View
  fold_loop [] view = view
  fold_loop (e ∷ es) view = fold_loop es (take_opened e (open_entry aead e) view)

  unfoldable pub fold_locked : Client → Client
  fold_locked c =
      let es = appended c.folded c.store in
      record c { view = fold_loop es c.view; folded = c.folded + length es }

  unfoldable pub get : Bytes → Client → Client × Option Bytes
  get key c = let c1 = fold_locked c in (c1, live_value (lookup key c1.view))

  -- record
  unfoldable pub record_entries : List Entry → Client → Client
  record_entries es c = record c { store = (add cxof es c.store).0; recent = c.recent ++ es }

  -- What pullFrom does with the entries of a page.
  unfoldable pub pull_page : List Entry → Client → Client
  pull_page es c = record c { store = (add cxof es c.store).0 }

  unfoldable pub record_sealed : Client → Result SealError Entry → Client × Option ClientError
  record_sealed c (err e) = (c, some (not_sealed e))
  record_sealed c (ok e) = (record_entries (e ∷ []) c, none)

  unfoldable pub put_fmt : Pair → ℕ → Client → Client × Option ClientError
  put_fmt p fmt_tag c =
      if length p.value == 0
      then (c, some empty_value)
      else let r = next_ts p.now_ms c in
        record_sealed r.0 (seal aead p.nonce r.1 p.key (wrap_value fmt_tag p.value))

  unfoldable pub put : Pair → Client → Client × Option ClientError
  put p c = put_fmt p fmt_raw c

  unfoldable pub delete_key : ℕ → Option Bytes → Bytes → Client → Client × Option ClientError
  delete_key now_ms nonce key c =
      let r = next_ts now_ms c in record_sealed r.0 (seal aead nonce r.1 key [])

  -- The loop of PutMany over the keys in the order that the map gives, with `es` sealed so far.
  unfoldable pub put_many_loop :
      List Pair → List Entry → Client → Client × Result ClientError (List Entry)
  put_many_loop [] es c = (c, ok es)
  put_many_loop (p ∷ ps) es c =
      if length p.value == 0
      then (c, err empty_value)
      else let r = next_ts p.now_ms c in
        elim (seal aead p.nonce r.1 p.key (wrap_value fmt_raw p.value)) [
          | err e ↦ (r.0, err (not_sealed e))
          | ok e ↦ put_many_loop ps (es ++ e ∷ []) r.0
        ]

  unfoldable pub put_many_end :
      Client × Result ClientError (List Entry) → Client × Option ClientError
  put_many_end (c, err e) = (c, some e)
  put_many_end (c, ok es) = (record_entries es c, none)

  unfoldable pub put_many : List Pair → Client → Client × Option ClientError
  put_many ps c = put_many_end (put_many_loop ps [] c)
