-- ===== src/Kv/Store/MemStore/Pages.antt =====
-- What one page promises: progress, a prefix, and the budget.
use repani.Base.{
  ℕ, ◌+◌, ◌≡◌, ◌≤◌, ◌⊎◌, ◌≢◌, inl, inr, refl, ap, List, [], ◌∷◌, ◌++◌, Bytes, length, ltb,
  Bool-cases, ltb_false→le, arith,
}
use repani.Kv.Vault.Entry.{Entry, size}
use repani.Kv.Store.Canonical.{entries}
use repani.Kv.Store.MemStore.{MemStore, entries_after}
use repani.Kv.Store.MemStore.Refines.{view, IsValid}
use repani.Kv.Store.MemStore.Paging.{page, page_rest, after, cursor, entries_after-page}

abbrev pub total_size : List Entry → ℕ
total_size [] = 0
total_size (e ∷ es) = size e + total_size es

page_rest_cut :
    (budget used : ℕ) (es : List Entry)
    → (rest : List Entry) × (page_rest budget used es ++ rest ≡ es)
unfolding page_rest
page_rest_cut budget used [] = ([], refl)
page_rest_cut budget used (e ∷ es) = elim (Bool-cases (ltb budget (used + size e))) [
  | inl full ↦ (e ∷ es, rw (page_rest, full) refl)
  | inr fits ↦
      let (rest, h) = page_rest_cut budget (used + size e) es in
      (rest, rw (page_rest, fits) (ap (λ t. e ∷ t) h))
]

page_rest_budget :
    (budget used : ℕ) (es : List Entry)
    → used ≤ budget
    → used + total_size (page_rest budget used es) ≤ budget
unfolding page_rest
page_rest_budget budget used [] h = omega arith
page_rest_budget budget used (e ∷ es) h = elim (Bool-cases (ltb budget (used + size e))) [
  | inl full ↦ rw full (omega arith)
  | inr fits ↦ rw fits (
      omega (
        arith,
        page_rest_budget budget (used + size e) es (ltb_false→le budget (used + size e) fits),
      ))
]

page_rest_over :
    (budget used : ℕ) (es : List Entry) → budget + 1 ≤ used → page_rest budget used es ≡ []
unfolding page_rest
page_rest_over budget used [] h = refl
page_rest_over budget used (e ∷ es) h = ground arith

-- The shape of a page over what remains.
pub record IsPage (budget : ℕ) (es out : List Entry) : Type 0 where
  pub rest : List Entry
  pub front : out ++ rest ≡ es
  pub progress : es ≢ [] → out ≢ []
  pub bounded : (total_size out ≤ budget) ⊎ (length out ≤ 1)

page-IsPage : (budget : ℕ) (es : List Entry) → IsPage budget es (page budget es)
unfolding page
page-IsPage budget [] = record {
  rest = [];
  front = refl;
  progress = λ h. h;
  bounded = inr (omega arith);
}
page-IsPage budget (e ∷ es) =
    let (rest, h) = page_rest_cut budget (size e) es in
    record {
      rest = rest;
      front = ap (λ t. e ∷ t) h;
      progress = λ h e'. cc;
      bounded = elim (Bool-cases (ltb budget (size e))) [
        | inl over ↦ inr (rw (page_rest_over budget (size e) es (ground arith)) (omega arith))
        | inr fits ↦ inl (page_rest_budget budget (size e) es (ltb_false→le budget (size e) fits))
      ];
    }

-- A page of EntriesAfter on a valid store is a prefix of the canonical entries after the cursor; it is not empty while
-- one remains; and its sizes sum to at most the budget, unless it is a single entry.
pub entries_after-IsPage :
    (ts : ℕ) (id : Bytes) (budget : ℕ) (m : MemStore)
    → IsValid m
    → IsPage budget (entries (after (cursor ts id) (view m))) (entries_after ts id budget m)
entries_after-IsPage ts id budget m v =
    rw (entries_after-page ts id budget m v)
      (page-IsPage budget (entries (after (cursor ts id) (view m))))
