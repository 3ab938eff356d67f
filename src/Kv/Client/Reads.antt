-- ===== src/Kv/Client/Reads.antt =====
-- What kv/client reads: the view that it keeps is the replay of its whole store, and clients with the
-- same entries read the same values.
use repani.Base.{
  ℕ, ◌≡◌, ◌≤◌, ◌↔◌, inl, inr, refl, sym, ap, ◌∙◌, List, [], ◌∷◌, ◌++◌, Bytes, Option, Result, ok,
  err, Bool-cases, Result-cases, ◌==◌, length, length-drop, length-append, min, take, drop,
  take-append-drop, take-append_inside, take_all, arith, subst,
}
use repani.Kv.Vault.Aead.{Aead}
use repani.Kv.Vault.Entry.{Entry}
use repani.Kv.Store.MemStore.{MemStore, add, appended, len}
use repani.Kv.Store.MemStore.Adds.{appended-add}
use repani.Kv.Vault.Plaintext.{SealError, open_entry, seal}
use repani.Kv.Server.Maps.{lookup}
use repani.Kv.Client.View.{
  KeyValue, View, Client, new_client, take_opened, fold_loop, fold_locked, live_value, get,
  record_entries, record_sealed, next_ts, put_fmt, delete_key, put_many, put_many_loop,
  put_many_end, pull_page, Pair, ClientError, wrap_value, fmt_raw,
}
use repani.Kv.Client.Merge.{
  In, IsLatest, AreDistinct, fold_loop-IsLatest, IsLatest-same, IsLatest-unique,
}

module _ (cxof : Bytes → Bytes → Bytes) (aead : Aead) where
  -- The merge of a whole set, from nothing.
  unfoldable pub replay : List Entry → View
  replay es = fold_loop cxof aead es []

  -- The view has taken the first `folded` entries of the store.
  record IsFolded (c : Client) : Type 0 where
    taken : c.view ≡ replay (take c.folded c.store.entries)
    within : c.folded ≤ length c.store.entries

  fold_loop-append :
      (xs ys : List Entry) (view : View)
      → fold_loop cxof aead (xs ++ ys) view ≡ fold_loop cxof aead ys (fold_loop cxof aead xs view)
  unfolding fold_loop
  fold_loop-append [] ys view = refl
  fold_loop-append (x ∷ xs) ys view =
      fold_loop-append xs ys (take_opened cxof aead x (open_entry aead x) view)

  new_client-IsFolded : (s : MemStore) → IsFolded (new_client s)
  unfolding new_client replay fold_loop
  new_client-IsFolded s = record { taken = refl; within = omega arith }

  fold_locked-view :
      (c : Client) → IsFolded c → (fold_locked cxof aead c).view ≡ replay c.store.entries
  unfolding fold_locked appended replay
  fold_locked-view c f =
      let within = f.within in
      let all : min c.folded (length c.store.entries) ≡ c.folded = omega arith in
      ap (λ (n : ℕ). fold_loop cxof aead (drop n c.store.entries) c.view) all
      ∙ ap (fold_loop cxof aead (drop c.folded c.store.entries)) f.taken
      ∙ sym (fold_loop-append (take c.folded c.store.entries) (drop c.folded c.store.entries) [])
      ∙ ap (λ (es : List Entry). fold_loop cxof aead es [])
          (take-append-drop c.folded c.store.entries)

  fold_locked-folded :
      (c : Client) → IsFolded c → (fold_locked cxof aead c).folded ≡ length c.store.entries
  unfolding fold_locked appended
  fold_locked-folded c f =
      let within = f.within in
      omega (arith, length-drop (min c.folded (length c.store.entries)) c.store.entries)

  fold_locked-IsFolded : (c : Client) → IsFolded c → IsFolded (fold_locked cxof aead c)
  unfolding fold_locked
  fold_locked-IsFolded c f =
      let whole = fold_locked-folded c f in
      record {
        taken = fold_locked-view c f ∙ ap replay (sym (take_all _ c.store.entries (omega arith)));
        within = omega arith;
      }

  pull_page-IsFolded :
      (es : List Entry) (c : Client) → IsFolded c → IsFolded (pull_page cxof aead es c)
  unfolding pull_page
  pull_page-IsFolded es c f =
      let (grown, _, _) = appended-add cxof es c.store in
      let within = f.within in
      record {
        taken =
            f.taken
            ∙ ap replay (
                sym (take-append_inside c.folded c.store.entries _ (omega arith))
                ∙ ap (take c.folded) (sym grown));
        within =
            subst (λ (xs : List Entry). c.folded ≤ length xs) (sym grown)
              (omega (
                arith,
                length-append c.store.entries (appended (len c.store) (add cxof es c.store).0),
              ));
      }

  record_entries-IsFolded :
      (es : List Entry) (c : Client) → IsFolded c → IsFolded (record_entries cxof aead es c)
  unfolding record_entries pull_page
  record_entries-IsFolded es c f =
      let p = pull_page-IsFolded es c f in record { taken = p.taken; within = p.within }

  record_sealed-IsFolded :
      (c : Client) (r : Result SealError Entry)
      → IsFolded c
      → IsFolded (record_sealed cxof aead c r).0
  unfolding record_sealed
  record_sealed-IsFolded c (err e) f = f
  record_sealed-IsFolded c (ok e) f = record_entries-IsFolded (e ∷ []) c f

  next_ts-IsFolded : (now : ℕ) (c : Client) → IsFolded c → IsFolded (next_ts now c).0
  unfolding next_ts
  next_ts-IsFolded now c f = record { taken = f.taken; within = f.within }

  put_fmt-IsFolded :
      (p : Pair) (tag : ℕ) (c : Client) → IsFolded c → IsFolded (put_fmt cxof aead p tag c).0
  unfolding put_fmt
  put_fmt-IsFolded p tag c f = elim (Bool-cases (length p.value == 0)) [
    | inl empty ↦ rw empty f
    | inr full ↦ rw full (record_sealed-IsFolded _ _ (next_ts-IsFolded p.now_ms c f))
  ]

  delete_key-IsFolded :
      (now : ℕ) (fresh : Option Bytes) (key : Bytes) (c : Client)
      → IsFolded c
      → IsFolded (delete_key cxof aead now fresh key c).0
  unfolding delete_key
  delete_key-IsFolded now fresh key c f = record_sealed-IsFolded _ _ (next_ts-IsFolded now c f)

  put_many_loop-IsFolded :
      (ps : List Pair) (es : List Entry) (c : Client)
      → IsFolded c
      → IsFolded (put_many_loop cxof aead ps es c).0
  unfolding put_many_loop
  put_many_loop-IsFolded [] es c f = f
  put_many_loop-IsFolded (p ∷ ps) es c f = elim (Bool-cases (length p.value == 0)) [
    | inl empty ↦ rw empty f
    | inr full ↦
        let r = next_ts p.now_ms c in
        elim (Result-cases (seal aead p.nonce r.1 p.key (wrap_value fmt_raw p.value))) [
          | inl (e, sealed) ↦
              rw (full, sealed)
                (put_many_loop-IsFolded ps (es ++ e ∷ []) r.0 (next_ts-IsFolded p.now_ms c f))
          | inr (e, refused) ↦ rw (full, refused) (next_ts-IsFolded p.now_ms c f)
        ]
  ]

  put_many_end-IsFolded :
      (c : Client) (r : Result ClientError (List Entry))
      → IsFolded c
      → IsFolded (put_many_end cxof aead (c, r)).0
  unfolding put_many_end
  put_many_end-IsFolded c (err e) f = f
  put_many_end-IsFolded c (ok es) f = record_entries-IsFolded es c f

  replay-IsLatest :
      (k : Bytes) (es : List Entry)
      → IsLatest cxof aead k (λ (x : Entry). In x es) (lookup k (replay es))
  unfolding replay lookup
  replay-IsLatest k es =
      IsLatest-same cxof aead k _ _ (lookup k (replay es))
        (λ x p. elim p [ inl n ↦ absurd n | inr q ↦ q ]) (λ x p. inr p)
        (fold_loop-IsLatest cxof aead k (λ (x : Entry). ⊥) es [] (λ e kv n r. n))

  -- The operations that a client of the store `s` has done, among them the Add of a pulled page.
  pub data Used (s : MemStore) : Client → Type 0 where
    made : Used s (new_client s)
    has_read : (k : Bytes) (c : Client) → Used s c → Used s (get cxof aead k c).0
    has_put : (p : Pair) (tag : ℕ) (c : Client) → Used s c → Used s (put_fmt cxof aead p tag c).0
    has_deleted :
        (now : ℕ) (fresh : Option Bytes) (key : Bytes) (c : Client)
        → Used s c
        → Used s (delete_key cxof aead now fresh key c).0
    has_put_many : (ps : List Pair) (c : Client) → Used s c → Used s (put_many cxof aead ps c).0
    has_pulled : (es : List Entry) (c : Client) → Used s c → Used s (pull_page cxof aead es c)

  Used-IsFolded : {s : MemStore} {c : Client} → Used s c → IsFolded c
  unfolding get put_many
  Used-IsFolded {s = s} made = new_client-IsFolded s
  Used-IsFolded (has_read k c u) = fold_locked-IsFolded c (Used-IsFolded u)
  Used-IsFolded (has_put p tag c u) = put_fmt-IsFolded p tag c (Used-IsFolded u)
  Used-IsFolded (has_deleted now fresh key c u) =
      delete_key-IsFolded now fresh key c (Used-IsFolded u)
  Used-IsFolded (has_put_many ps c u) =
      put_many_end-IsFolded _ _ (put_many_loop-IsFolded ps [] c (Used-IsFolded u))
  Used-IsFolded (has_pulled es c u) = pull_page-IsFolded es c (Used-IsFolded u)

  get-replay :
      (k : Bytes) (c : Client)
      → IsFolded c
      → (get cxof aead k c).1 ≡ live_value (lookup k (replay c.store.entries))
  unfolding get
  get-replay k c f = ap (λ (v : View). live_value (lookup k v)) (fold_locked-view c f)

  -- Get answers the payload of the key's latest entry in the whole store, by (TsMs, EntryID), among the
  -- entries that open, and nothing where there is no such entry or it is a tombstone, whatever reads and
  -- writes came before.
  pub get-IsLatest :
      (k : Bytes) (s : MemStore) (c : Client)
      → Used s c
      → (kv : Option KeyValue) × (IsLatest cxof aead k (λ (x : Entry). In x c.store.entries) kv
          × ((get cxof aead k c).1 ≡ live_value kv))
  get-IsLatest k s c u = (
    lookup k (replay c.store.entries),
    (replay-IsLatest k c.store.entries, get-replay k c (Used-IsFolded u)),
  )

  -- Two clients whose stores hold the same entries, in any order, read the same value of every key,
  -- where entries with the same id are the same entry.
  pub get_converges :
      (k : Bytes) (s t : MemStore) (c d : Client)
      → Used s c
      → Used t d
      → AreDistinct cxof aead c.store.entries
      → ((x : Entry) → In x c.store.entries ↔ In x d.store.entries)
      → (get cxof aead k c).1 ≡ (get cxof aead k d).1
  get_converges k s t c d u v distinct same =
      let latest : IsLatest cxof aead k (λ (x : Entry). In x c.store.entries)
          (lookup k (replay d.store.entries)) =
        IsLatest-same cxof aead k _ _ (lookup k (replay d.store.entries)) (λ x q. (same x).1 q)
          (λ x p. (same x).0 p) (replay-IsLatest k d.store.entries) in
      get-replay k c (Used-IsFolded u)
      ∙ ap live_value (
          IsLatest-unique cxof aead k c.store.entries (lookup k (replay c.store.entries))
            (lookup k (replay d.store.entries)) distinct (replay-IsLatest k c.store.entries) latest)
      ∙ sym (get-replay k d (Used-IsFolded v))
