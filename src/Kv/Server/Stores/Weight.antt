-- ===== src/Kv/Server/Stores/Weight.antt =====
-- The bytes of a store do not depend on the order in which its entries are read.
use mathlib.Core.Logic.{∥∥₁_elim}
use mathlib.Core.List.{Perm, Permᴰ}
use native.Mathlib.Bridge.{le_prop}
use repani.Base.{ℕ, ◌+◌, ◌≤◌, ◌≡◌, refl, ap, ◌∙◌, List, [], ◌∷◌, Bytes, length, arith}
use repani.Kv.Vault.Entry.{Entry, size}
use repani.Kv.Store.Canonical.{Keyed, entries}
use repani.Kv.Store.MemStore.{MemStore, sorted}
use repani.Kv.Store.MemStore.Refines.{zip_keyed, IsValid}
use repani.Kv.Store.MemStore.Adds.{sorted-view}
use repani.Kv.Server.Laws.{total_size}

abbrev weight : List Keyed → ℕ
weight ks = total_size (entries ks)

weight-perm_le : {ks qs : List Keyed} → Permᴰ ks qs → weight ks ≡ weight qs
unfolding total_size
weight-perm_le Permᴰ.nil = refl
weight-perm_le (Permᴰ.cons {l₁ = l₁} e p) = λ i. size (e i).entry + weight-perm_le p i
weight-perm_le (Permᴰ.swap {a} {b} {l = l} e f) =
    (let c : size a.entry + (size b.entry + weight l) ≡ size b.entry + (size a.entry + weight l) =
        omega arith in
      c)
    ∙ (λ i. size (f i).entry + (size (e i).entry + weight l))
weight-perm_le (Permᴰ.trans p q) = weight-perm_le p ∙ weight-perm_le q

weight-perm : {ks qs : List Keyed} → Perm ks qs → weight ks ≡ weight qs
weight-perm {ks} {qs} p =
    let le : weight ks ≤ weight qs = ∥∥₁_elim p le_prop (λ d. omega (arith, weight-perm_le d)) in
    let ge : weight qs ≤ weight ks = ∥∥₁_elim p le_prop (λ d. omega (arith, weight-perm_le d)) in
    omega arith

entries-zip_keyed :
    (is : List Bytes) (es : List Entry) → length is ≡ length es → entries (zip_keyed is es) ≡ es
entries-zip_keyed [] [] h = refl
entries-zip_keyed [] (e ∷ es) h = absurd (omega arith)
entries-zip_keyed (i ∷ is) [] h = absurd (omega arith)
entries-zip_keyed (i ∷ is) (e ∷ es) h = ap (λ t. e ∷ t) (entries-zip_keyed is es (omega arith))

pub sorted-weight : (m : MemStore) → IsValid m → total_size (sorted m) ≡ total_size m.entries
sorted-weight m v =
    ap total_size (sorted-view m)
    ∙ weight-perm v.same_items
    ∙ ap total_size (entries-zip_keyed m.ids m.entries v.aligned)
