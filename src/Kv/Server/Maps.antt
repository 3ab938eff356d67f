-- ===== src/Kv/Server/Maps.antt =====
-- Go's maps keyed by 16-byte arrays, as association lists without a key twice, in any order.
use repani.Base.{
  ◌≡◌, inl, inr, refl, sym, ◌∙◌, true, List, [], ◌∷◌, Bytes, if◌then◌else◌, Bool-cases, Option,
  none, some,
}
use repani.Kv.Store.Canonical.{bytes_eq, bytes_eq_iff}

module _ {ℓ} {V : Type ℓ} where
  unfoldable pub lookup : Bytes → List (Bytes × V) → Option V
  lookup k [] = none
  lookup k (kv ∷ m) = if bytes_eq kv.0 k then some kv.1 else lookup k m

  unfoldable pub delete : Bytes → List (Bytes × V) → List (Bytes × V)
  delete k [] = []
  delete k (kv ∷ m) = if bytes_eq kv.0 k then delete k m else kv ∷ delete k m

  -- m[k] = v
  unfoldable pub set_key : Bytes → V → List (Bytes × V) → List (Bytes × V)
  unfolding delete
  set_key k v m = (k, v) ∷ delete k m

  pub keys : List (Bytes × V) → List Bytes
  keys [] = []
  keys (kv ∷ m) = kv.0 ∷ keys m

pub bytes_eq_refl : (k : Bytes) → bytes_eq k k ≡ true
bytes_eq_refl k = (bytes_eq_iff k k).1 refl

module _ {ℓ} {V : Type ℓ} where
  pub lookup-delete :
      (k j : Bytes) (m : List (Bytes × V))
      → lookup j (delete k m) ≡ (if bytes_eq k j then none else lookup j m)
  unfolding lookup delete
  lookup-delete k j [] = elim (Bool-cases (bytes_eq k j)) [ inl e ↦ rw e refl | inr e ↦ rw e refl ]
  lookup-delete k j (kv ∷ m) = elim (Bool-cases (bytes_eq kv.0 k)) [
    | inl same ↦
        let e : kv.0 ≡ k = (bytes_eq_iff kv.0 k).0 same in
        elim (Bool-cases (bytes_eq k j)) [
          | inl kj ↦ rw (same, lookup-delete k j m, kj) refl
          | inr kj ↦ rw (same, lookup-delete k j m, kj, e, kj) refl
        ]
    | inr other ↦ elim (Bool-cases (bytes_eq kv.0 j)) [
      | inl kj ↦ elim (Bool-cases (bytes_eq k j)) [
        | inl b ↦
            let e : kv.0 ≡ k = (bytes_eq_iff kv.0 j).0 kj ∙ sym ((bytes_eq_iff k j).0 b) in
            absurd (cc ((bytes_eq_iff kv.0 k).1 e))
        | inr b ↦ rw (other, lookup, kj, b) refl
      ]
      | inr kj ↦ rw (other, lookup, kj) (lookup-delete k j m)
    ]
  ]

  pub lookup-set_key :
      (k j : Bytes) (v : V) (m : List (Bytes × V))
      → lookup j (set_key k v m) ≡ (if bytes_eq k j then some v else lookup j m)
  unfolding lookup set_key
  lookup-set_key k j v m = elim (Bool-cases (bytes_eq k j)) [
    | inl e ↦ rw e refl
    | inr e ↦ rw (e, lookup-delete k j m, e) refl
  ]
