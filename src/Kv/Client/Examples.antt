-- ===== src/Kv/Client/Examples.antt =====
-- Two clients that get the same two entries in another order.
use repani.Base.{
  ◌≡◌, ◌↔◌, inl, inr, refl, sym, ap, subst, ◌∙◌, [], ◌∷◌, Bytes, Option, some, replicate, arith,
  compare_bytes, get_or, put_le, get_le,
}
use repani.Kv.Samples.{first_bytes, plain_aead, plain_seal}
use repani.Kv.Vault.Entry.{Entry, marshal, marshal_to, put_header}
use repani.Kv.Vault.Ids.{entry_id}
use repani.Kv.Vault.Plaintext.{open_entry, split_plaintext}
use repani.Kv.Store.Canonical.{has_id}
use repani.Kv.Store.MemStore.{
  new_mem_store, add, add_loop, add_locked, has_entry, place, compare_at, appended,
}
use repani.Kv.Server.Maps.{lookup, set_key, delete}
use repani.Kv.Client.View.{
  KeyValue, Client, new_client, pull_page, get, fold_locked, fold_loop, take_opened, is_superseded,
  pos_after, parse_value, live_value,
}
use repani.Kv.Client.Merge.{In, IsLatest, AreDistinct}
use repani.Kv.Client.Reads.{made, has_pulled, get-IsLatest, get_converges}

-- "a" and "b" under the key "k".
abbrev older : Entry
older = record {
  ts_ms = 3;
  nonce = replicate 16 1;
  ct = plain_seal (1 ∷ b'k' ∷ 2 ∷ 0 ∷ 0 ∷ b'a' ∷ []);
}

abbrev newer : Entry
newer = record {
  ts_ms = 5;
  nonce = replicate 16 1;
  ct = plain_seal (1 ∷ b'k' ∷ 2 ∷ 0 ∷ 0 ∷ b'b' ∷ []);
}

abbrev in_order : Client
in_order = pull_page first_bytes plain_aead (older ∷ newer ∷ []) (new_client new_mem_store)

abbrev in_turn : Client
in_turn = pull_page first_bytes plain_aead (newer ∷ older ∷ []) (new_client new_mem_store)

-- Both read "b", which was written last.
reads_newer : (get first_bytes plain_aead (b'k' ∷ []) in_turn).1 ≡ some (b'b' ∷ [])
unfolding get fold_locked fold_loop take_opened is_superseded pos_after parse_value live_value
    pull_page new_client add add_loop add_locked has_entry has_id place compare_at compare_bytes
    appended lookup set_key delete open_entry split_plaintext put_le get_le entry_id marshal
reads_newer = refl

in_order-entries : in_order.store.entries ≡ older ∷ newer ∷ []
unfolding pull_page new_client add add_loop add_locked has_entry has_id place compare_at
    compare_bytes put_le entry_id marshal
in_order-entries = refl

in_turn-entries : in_turn.store.entries ≡ newer ∷ older ∷ []
unfolding pull_page new_client add add_loop add_locked has_entry has_id place compare_at
    compare_bytes put_le entry_id marshal
in_turn-entries = refl

different_ids : entry_id first_bytes older ≡ entry_id first_bytes newer → ⊥
unfolding put_le entry_id marshal marshal_to put_header
different_ids e =
    let first : 3 ≡ 5 = ap (λ (xs : Bytes). get_or xs 0 0) e in absurd (omega (arith, first))

two-AreDistinct : AreDistinct first_bytes plain_aead (older ∷ newer ∷ [])
two-AreDistinct x y (inl p) (inl q) e = p ∙ sym q
two-AreDistinct x y (inl p) (inr (inl q)) e =
    absurd (different_ids (ap (entry_id first_bytes) (sym p) ∙ e ∙ ap (entry_id first_bytes) q))
two-AreDistinct x y (inr (inl p)) (inl q) e =
    absurd (different_ids (ap (entry_id first_bytes) (sym q) ∙ sym e ∙ ap (entry_id first_bytes) p))
two-AreDistinct x y (inr (inl p)) (inr (inl q)) e = p ∙ sym q
two-AreDistinct x y (inr (inr n)) _ e = absurd n
two-AreDistinct x y (inl _) (inr (inr n)) e = absurd n
two-AreDistinct x y (inr (inl _)) (inr (inr n)) e = absurd n

swapped : (a b x : Entry) → In x (a ∷ b ∷ []) → In x (b ∷ a ∷ [])
swapped a b x (inl p) = inr (inl p)
swapped a b x (inr (inl p)) = inl p
swapped a b x (inr (inr n)) = absurd n

same_members : (x : Entry) → In x in_order.store.entries ↔ In x in_turn.store.entries
same_members x =
    rw (in_order-entries, in_turn-entries) (swapped older newer x, swapped newer older x)

get_converges_example :
    (get first_bytes plain_aead (b'k' ∷ []) in_order).1
    ≡ (get first_bytes plain_aead (b'k' ∷ []) in_turn).1
get_converges_example =
    get_converges first_bytes plain_aead (b'k' ∷ []) new_mem_store new_mem_store in_order in_turn
      (has_pulled (older ∷ newer ∷ []) (new_client new_mem_store) made)
      (has_pulled (newer ∷ older ∷ []) (new_client new_mem_store) made)
      (subst (AreDistinct first_bytes plain_aead) (sym in_order-entries) two-AreDistinct)
      same_members

get-IsLatest_example :
    (kv : Option KeyValue) × (IsLatest first_bytes plain_aead
        (b'k' ∷ [])
        (λ (x : Entry). In x in_order.store.entries)
        kv
      × ((get first_bytes plain_aead (b'k' ∷ []) in_order).1 ≡ live_value kv))
get-IsLatest_example =
    get-IsLatest first_bytes plain_aead (b'k' ∷ []) new_mem_store in_order
      (has_pulled (older ∷ newer ∷ []) (new_client new_mem_store) made)
