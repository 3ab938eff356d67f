-- ===== src/Kv/Server/Laws.antt =====
-- What the server relies on of a vault's store: the laws of store.Store that its accounts need.
-- `IsGood` is the store's own invariant and `held` its entries in the order added.
use repani.Base.{ℕ, ◌+◌, ◌≡◌, false, List, [], ◌∷◌, ◌++◌, Bytes, length, none, some}
use repani.Kv.Vault.Entry.{Entry, size}
use repani.Kv.Vault.Ids.{entry_id}
use repani.Kv.Store.Canonical.{has_id}
use repani.Kv.Server.State.{StoreOps}

unfoldable pub total_size : List Entry → ℕ
total_size [] = 0
total_size (e ∷ es) = size e + total_size es

-- Entries that the store does not hold, with ids that differ from each other and from `seen`.
module _ {S A : Type 0} (cxof : Bytes → Bytes → Bytes) (ops : StoreOps S A) where
  abbrev pub IsFresh : S → List Bytes → List Entry → Type 0
  IsFresh s seen [] = Unit {0}
  IsFresh s seen (e ∷ es) =
      (has_id (entry_id cxof e) seen ≡ false)
      × (ops.has (entry_id cxof e) s ≡ false)
      × IsFresh s (entry_id cxof e ∷ seen) es

module _ {S A : Type 0} (cxof : Bytes → Bytes → Bytes) (ops : StoreOps S A) (IsGood : S → Type 0)
    (held : S → List Entry) where
  pub record StoreLaws : Type 0 where
    pub new_good : IsGood ops.new_mem
    pub new_held : held ops.new_mem ≡ []
    pub len_held : (s : S) → IsGood s → ops.len s ≡ length (held s)
    pub sorted_held : (s : S) → IsGood s → total_size (ops.sorted s) ≡ total_size (held s)
    pub add_good : (a : A) (es : List Entry) (s : S) → IsGood s → IsGood (ops.add a es s).0
    pub add_ok :
        (a : A) (es : List Entry) (s : S) (n : ℕ)
        → IsGood s
        → IsFresh cxof ops s [] es
        → (ops.add a es s).1 ≡ some n
        → (held (ops.add a es s).0 ≡ held s ++ es) × (n ≡ length es)
    pub add_err :
        (a : A) (es : List Entry) (s : S)
        → IsGood s
        → (ops.add a es s).1 ≡ none
        → (held (ops.add a es s).0 ≡ held s)
          × ((ops.set_hash (ops.add a es s).0).1 ≡ (ops.set_hash s).1)
    pub add_nothing :
        (a : A) (es : List Entry) (s : S)
        → IsGood s
        → (ops.add a es s).1 ≡ some 0
        → (ops.set_hash (ops.add a es s).0).1 ≡ (ops.set_hash s).1
    pub set_hash_good : (s : S) → IsGood s → IsGood (ops.set_hash s).0
    pub set_hash_held : (s : S) → IsGood s → held (ops.set_hash s).0 ≡ held s
    pub set_hash_again :
        (s : S) → IsGood s → (ops.set_hash (ops.set_hash s).0).1 ≡ (ops.set_hash s).1
    pub close_good : (s : S) → IsGood s → IsGood (ops.close s)
    pub close_held : (s : S) → IsGood s → held (ops.close s) ≡ held s
    pub close_hash : (s : S) → IsGood s → (ops.set_hash (ops.close s)).1 ≡ (ops.set_hash s).1
    pub add_empty : (a : A) (s : S) → ops.add a [] s ≡ (s, some 0)
