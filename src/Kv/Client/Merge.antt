-- ===== src/Kv/Client/Merge.antt =====
-- The view of kv/client as a set of entries determines it: a key's value is the one of the latest entry
-- that opens under it, in whatever order the entries came.
use repani.Base.{
  ◌≡◌, ◌⊎◌, inl, inr, refl, sym, ap, subst, ◌∙◌, Bool, true, false, List, [], ◌∷◌, Bytes, Option,
  none, some, Result, ok, err, Bool-cases, if◌then◌else◌, arith,
}
use repani.Kv.Vault.Aead.{Aead}
use repani.Kv.Vault.Entry.{Entry}
use repani.Kv.Vault.Plaintext.{OpenError, open_entry}
use repani.Kv.Vault.Ids.{entry_id}
use repani.Kv.Store.Canonical.{bytes_eq, bytes_eq_iff}
use repani.Kv.Server.Maps.{lookup, set_key, lookup-set_key, bytes_eq_refl}
use repani.Kv.Client.Positions.{pos_after_irrefl, pos_after_trans, same_position}
use repani.Kv.Client.View.{
  KeyValue, View, parse_value, pos_after, is_superseded, take_opened, fold_loop,
}

-- Membership in a list of entries.
abbrev pub In : Entry → List Entry → Type 0
In x [] = ⊥
In x (y ∷ ys) = (x ≡ y) ⊎ In x ys

regroup : (A B C : Type 0) → (A ⊎ B) ⊎ C → A ⊎ (B ⊎ C)
regroup A B C (inl (inl a)) = inl a
regroup A B C (inl (inr b)) = inr (inl b)
regroup A B C (inr c) = inr (inr c)

ungroup : (A B C : Type 0) → A ⊎ (B ⊎ C) → (A ⊎ B) ⊎ C
ungroup A B C (inl a) = inl (inl a)
ungroup A B C (inr (inl b)) = inl (inr b)
ungroup A B C (inr (inr c)) = inr c

module _ (cxof : Bytes → Bytes → Bytes) (aead : Aead) where
  -- What an entry says of a key: its value with the entry's position.
  abbrev said : Entry → Result OpenError (Bytes × Bytes) → Option (Bytes × KeyValue)
  said e (err _) = none
  said e (ok (k, sv)) =
      let p = parse_value sv in
      some (k, record { value = p.1; fmt = p.0; ts = e.ts_ms; id = entry_id cxof e; tomb = p.2 })

  pub reading : Entry → Option (Bytes × KeyValue)
  reading e = said e (open_entry aead e)

  abbrev after : KeyValue → KeyValue → Bool
  after a b = pos_after a.ts a.id b.ts b.id

  -- The value of the key `k` is that of its latest entry among those with `P`.
  abbrev pub IsLatest : Bytes → (Entry → Type 0) → Option KeyValue → Type 0
  IsLatest k P none = (e : Entry) (kv : KeyValue) → P e → reading e ≡ some (k, kv) → ⊥
  IsLatest k P (some kv) =
      ((e : Entry) × (P e × (reading e ≡ some (k, kv))))
      × ((e : Entry) (kv' : KeyValue) → P e → reading e ≡ some (k, kv') → after kv' kv ≡ false)

  merge : Option (Bytes × KeyValue) → View → View
  merge none view = view
  merge (some (k, kv)) view =
      if is_superseded (lookup k view) kv.ts kv.id then view else set_key k kv view

  take_opened-merge :
      (e : Entry) (o : Result OpenError (Bytes × Bytes)) (view : View)
      → take_opened cxof aead e o view ≡ merge (said e o) view
  unfolding take_opened merge
  take_opened-merge e (err x) view = refl
  take_opened-merge e (ok (k, sv)) view = refl

  value_of :
      (j k : Bytes) (a b : KeyValue)
      → ◌≡◌ {A = Option (Bytes × KeyValue)} (some (j, a)) (some (k, b))
      → a ≡ b
  value_of j k a b e = ap (λ (o : Option (Bytes × KeyValue)). pick o) e
    where
      pick : Option (Bytes × KeyValue) → KeyValue
      pick none = a
      pick (some (_, v)) = v

  key_of :
      (j k : Bytes) (a b : KeyValue)
      → ◌≡◌ {A = Option (Bytes × KeyValue)} (some (j, a)) (some (k, b))
      → j ≡ k
  key_of j k a b e = ap (λ (o : Option (Bytes × KeyValue)). pick o) e
    where
      pick : Option (Bytes × KeyValue) → Bytes
      pick none = j
      pick (some (i, _)) = i

  not_after :
      (kv kv' cur : KeyValue) → after kv cur ≡ true → after kv' cur ≡ false → after kv' kv ≡ false
  not_after kv kv' cur later not_later = elim (Bool-cases (after kv' kv)) [
    | inl newer ↦
        let both = pos_after_trans kv'.ts kv.ts cur.ts kv'.id kv.id cur.id newer later in
        absurd (ground arith)
    | inr ok_no ↦ ok_no
  ]

  -- One entry more, which says nothing of the key.
  IsLatest-silent :
      (k : Bytes) (P : Entry → Type 0) (e : Entry) (o : Option KeyValue)
      → ((kv : KeyValue) → reading e ≡ some (k, kv) → ⊥)
      → IsLatest k P o
      → IsLatest k (λ (x : Entry). P x ⊎ (x ≡ e)) o
  IsLatest-silent k P e none s h =
      λ x kv p r. elim p [ inl q ↦ h x kv q r | inr q ↦ s kv (sym (ap reading q) ∙ r) ]
  IsLatest-silent k P e (some cur) s ((x0, (p0, r0)), h) = (
    (x0, (inl p0, r0)),
    λ x kv p r. elim p [ inl q ↦ h x kv q r | inr q ↦ absurd (s kv (sym (ap reading q) ∙ r)) ],
  )

  same_value :
      (k : Bytes) (x e : Entry) (kv' kv : KeyValue)
      → x ≡ e
      → reading x ≡ some (k, kv')
      → reading e ≡ some (k, kv)
      → kv' ≡ kv
  same_value k x e kv' kv q r' r = value_of k k kv' kv (sym r' ∙ ap reading q ∙ r)

  not_after_itself : (a b : KeyValue) → a ≡ b → after a b ≡ false
  not_after_itself a b e = ap (λ (x : KeyValue). after x b) e ∙ pos_after_irrefl b.ts b.id

  -- The value of a key once `kv` has been said of it.
  latest_of : KeyValue → Option KeyValue → Option KeyValue
  latest_of kv o = if is_superseded o kv.ts kv.id then o else some kv

  IsLatest-latest_of :
      (k : Bytes) (P : Entry → Type 0) (e : Entry) (kv : KeyValue) (o : Option KeyValue)
      → reading e ≡ some (k, kv)
      → IsLatest k P o
      → IsLatest k (λ (x : Entry). P x ⊎ (x ≡ e)) (latest_of kv o)
  unfolding latest_of is_superseded
  IsLatest-latest_of k P e kv none r h = (
    (e, (inr refl, r)),
    λ x kv' p r'. elim p [
      | inl q ↦ absurd (h x kv' q r')
      | inr q ↦ not_after_itself kv' kv (same_value k x e kv' kv q r' r)
    ],
  )
  IsLatest-latest_of k P e kv (some cur) r ((x0, (p0, r0)), h) = elim (Bool-cases (after kv cur)) [
    | inl later ↦ rw later (
      (e, (inr refl, r)),
      λ x kv' p r'. elim p [
        | inl q ↦ not_after kv kv' cur later (h x kv' q r')
        | inr q ↦ not_after_itself kv' kv (same_value k x e kv' kv q r' r)
      ],
    )
    | inr not_later ↦ rw not_later (
      (x0, (inl p0, r0)),
      λ x kv' p r'. elim p [
        | inl q ↦ h x kv' q r'
        | inr q ↦ ap (λ (v : KeyValue). after v cur) (same_value k x e kv' kv q r' r) ∙ not_later
      ],
    )
  ]

  merge-lookup :
      (j k : Bytes) (kv : KeyValue) (view : View)
      → bytes_eq j k ≡ true
      → lookup k (merge (some (j, kv)) view) ≡ latest_of kv (lookup k view)
  unfolding merge latest_of
  merge-lookup j k kv view same =
      let e : j ≡ k = (bytes_eq_iff j k).0 same in
      elim (Bool-cases (is_superseded (lookup k view) kv.ts kv.id)) [
        | inl old ↦ rw (e, old) refl
        | inr new ↦ rw (e, new) (lookup-set_key k k kv view ∙ rw (bytes_eq_refl k) refl)
      ]

  merge-lookup_other :
      (j k : Bytes) (kv : KeyValue) (view : View)
      → bytes_eq j k ≡ false
      → lookup k (merge (some (j, kv)) view) ≡ lookup k view
  unfolding merge
  merge-lookup_other j k kv view other =
      elim (Bool-cases (is_superseded (lookup j view) kv.ts kv.id)) [
        | inl old ↦ rw old refl
        | inr new ↦ rw (new, lookup-set_key j k kv view, other) refl
      ]

  merge-IsLatest :
      (k : Bytes) (P : Entry → Type 0) (e : Entry) (o : Option (Bytes × KeyValue)) (view : View)
      → reading e ≡ o
      → IsLatest k P (lookup k view)
      → IsLatest k (λ (x : Entry). P x ⊎ (x ≡ e)) (lookup k (merge o view))
  unfolding merge
  merge-IsLatest k P e none view r h =
      IsLatest-silent k P e (lookup k view) (λ kv r'. absurd (cc (sym r' ∙ r))) h
  merge-IsLatest k P e (some (j, kv)) view r h = elim (Bool-cases (bytes_eq j k)) [
    | inl same ↦
        let key : j ≡ k = (bytes_eq_iff j k).0 same in
        subst (IsLatest k (λ (x : Entry). P x ⊎ (x ≡ e))) (sym (merge-lookup j k kv view same))
          (IsLatest-latest_of k P e kv (lookup k view) (r ∙ ap (λ (i : Bytes). some (i, kv)) key) h)
    | inr other ↦
        subst (IsLatest k (λ (x : Entry). P x ⊎ (x ≡ e)))
          (sym (merge-lookup_other j k kv view other))
          (IsLatest-silent k P e (lookup k view)
            (λ kv' r'. absurd (cc ((bytes_eq_iff j k).1 (key_of j k kv kv' (sym r ∙ r')), other)))
            h)
  ]

  -- IsLatest depends on which entries there are.
  pub IsLatest-same :
      (k : Bytes) (P Q : Entry → Type 0) (o : Option KeyValue)
      → ((x : Entry) → P x → Q x)
      → ((x : Entry) → Q x → P x)
      → IsLatest k P o
      → IsLatest k Q o
  IsLatest-same k P Q none to from h = λ x kv q r. h x kv (from x q) r
  IsLatest-same k P Q (some cur) to from ((x0, (p0, r0)), h) =
      ((x0, (to x0 p0, r0)), λ x kv q r. h x kv (from x q) r)

  pub fold_loop-IsLatest :
      (k : Bytes) (P : Entry → Type 0) (es : List Entry) (view : View)
      → IsLatest k P (lookup k view)
      → IsLatest k (λ (x : Entry). P x ⊎ In x es) (lookup k (fold_loop cxof aead es view))
  unfolding fold_loop reading
  fold_loop-IsLatest k P [] view h =
      IsLatest-same k P _ (lookup k view) (λ x p. inl p)
        (λ x p. elim p [ inl q ↦ q | inr n ↦ absurd n ]) h
  fold_loop-IsLatest k P (e ∷ es) view h =
      let step : IsLatest k (λ (x : Entry). P x ⊎ (x ≡ e))
          (lookup k (take_opened cxof aead e (open_entry aead e) view)) =
        rw (take_opened-merge e (open_entry aead e) view)
          (merge-IsLatest k P e (reading e) view refl h) in
      IsLatest-same k _ _ _ (λ x p. regroup (P x) (x ≡ e) (In x es) p)
        (λ x p. ungroup (P x) (x ≡ e) (In x es) p)
        (fold_loop-IsLatest k (λ (x : Entry). P x ⊎ (x ≡ e)) es
          (take_opened cxof aead e (open_entry aead e) view) step)

  -- Two entries that are one when their ids are.
  abbrev pub AreDistinct : List Entry → Type 0
  AreDistinct es = (x y : Entry) → In x es → In y es → entry_id cxof x ≡ entry_id cxof y → x ≡ y

  said-id :
      (x : Entry) (o : Result OpenError (Bytes × Bytes)) (k : Bytes) (kv : KeyValue)
      → said x o ≡ some (k, kv)
      → kv.id ≡ entry_id cxof x
  said-id x (err _) k kv e = ground arith
  said-id x (ok (j, sv)) k kv e = sym (ap (λ (v : KeyValue). v.id) (value_of j k _ kv e))

  pub IsLatest-unique :
      (k : Bytes) (es : List Entry) (o p : Option KeyValue)
      → AreDistinct es
      → IsLatest k (λ (x : Entry). In x es) o
      → IsLatest k (λ (x : Entry). In x es) p
      → o ≡ p
  unfolding reading
  IsLatest-unique k es none none d h g = refl
  IsLatest-unique k es none (some b) d h ((y, (py, ry)), g) = absurd (h y b py ry)
  IsLatest-unique k es (some a) none d ((x, (px, rx)), h) g = absurd (g x a px rx)
  IsLatest-unique k es (some a) (some b) d ((x, (px, rx)), h) ((y, (py, ry)), g) =
      let id : a.id ≡ b.id = same_position a.ts b.ts a.id b.id (g x a px rx) (h y b py ry) in
      let ids : entry_id cxof x ≡ entry_id cxof y =
        sym (said-id x (open_entry aead x) k a rx) ∙ id ∙ said-id y (open_entry aead y) k b ry in
      ap some (same_value k x y a b (d x y px py ids) rx ry)
