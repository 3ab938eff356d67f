-- ===== src/Kv/Server/Restarts.antt =====
-- What a start makes of the data directory, and that a revoked vault stays revoked over it.
use repani.Base.{
  ℕ, ◌≡◌, ◌⊎◌, inl, inr, refl, sym, ap, ◌∙◌, true, false, not, List, [], ◌∷◌, Bytes, All,
  if◌then◌else◌, Bool-cases, Option, none, some, Option-cases, arith,
}
use repani.Kv.Vault.Keys.{parse_vault_id, derive_c2s, derive_s2c}
use repani.Kv.Server.Pushes.{charge}
use repani.Kv.Store.Canonical.{has_id, has_id-cons, bytes_eq, bytes_eq_iff}
use repani.Kv.Server.Maps.{lookup, lookup-set_key, bytes_eq_refl}
use repani.Kv.Server.Record.{VaultRecord, record_auth_key}
use repani.Kv.Server.State.{StoreOps, VaultState, Server, new_vault_state}
use repani.Kv.Server.Lifecycle.{install}
use repani.Kv.Server.Registry.{IsRegistry, begin-IsRegistry}
use repani.Kv.Server.Load.{
  FoundRecord, no_record, damaged, found, VaultDir, revoke_id, load_log, load_live, load_record,
  load_dir, load_loop, Options, new_server,
}

-- The vault that a directory is named for.
abbrev pub dir_id : {S : Type 0} → VaultDir S → Option Bytes
dir_id d = if not d.is_dir then none else parse_vault_id d.name

-- A record that a start refuses: it cannot be read, says that the vault ended, or has no AuthKey.
abbrev pub IsRefused : FoundRecord → Type 0
IsRefused no_record = ⊥
IsRefused damaged = Unit {0}
IsRefused (found r) = ((t : ℕ) × (r.ended ≡ some t)) ⊎ (record_auth_key r ≡ none)

abbrev pub IsUnused : {S : Type 0} → Bytes → Server S → Type 0
IsUnused vid sv = (has_id vid sv.revoked ≡ false) × (lookup vid sv.vaults ≡ none)

module _ {S A : Type 0} (cxof : Bytes → Bytes → Bytes) (ops : StoreOps S A) where
  -- The state of a vault that was loaded: the opened log, with the bytes of all its entries, and the
  -- keys of an AuthKey.
  pub record IsLoaded (d : VaultDir S) (st : VaultState S) : Type 0 where
    pub opened : d.log ≡ some st.s
    pub all_counted : st.bytes ≡ charge (ops.sorted st.s) 0
    pub loaded_c2s : st.c2s ≡ derive_c2s cxof st.auth_key
    pub loaded_s2c : st.s2c ≡ derive_s2c cxof st.auth_key

  -- What one directory comes to: nothing, a refusal of its vault, or its service.
  pub data Loaded (d : VaultDir S) (sv : Server S) : Server S → Type 0 where
    ignored : (sv' : Server S) → sv' ≡ sv → Loaded d sv sv'
    refused :
        (sv' : Server S) (vid : Bytes)
        → dir_id d ≡ some vid
        → sv' ≡ revoke_id cxof ops vid sv
        → Loaded d sv sv'
    served :
        (sv' : Server S) (vid : Bytes) (st : VaultState S)
        → dir_id d ≡ some vid
        → st.gone ≡ false
        → IsLoaded d st
        → sv' ≡ install vid st sv
        → Loaded d sv sv'

  load_live-Loaded :
      (d : VaultDir S) (sv : Server S) (vid : Bytes) (r : VaultRecord) (log : Option S)
      → dir_id d ≡ some vid
      → d.log ≡ log
      → Loaded d sv (load_live cxof ops vid r log sv)
  unfolding load_live load_log new_vault_state
  load_live-Loaded d sv vid r log e q = elim (Option-cases (record_auth_key r)) [
    | inl a ↦ rw (load_live, a) (refused _ vid e refl)
    | inr (ak, a) ↦ elim (Option-cases log) [
      | inl l ↦ rw (load_live, a, l) (ignored sv refl)
      | inr (ls, l) ↦
          rw (load_live, a, l)
            (served _ vid _ e refl
              (record { opened = q ∙ l; all_counted = refl; loaded_c2s = refl; loaded_s2c = refl })
              refl)
    ]
  ]

  load_record-Loaded :
      (d : VaultDir S) (sv : Server S) (vid : Bytes) (f : FoundRecord) (log : Option S)
      → dir_id d ≡ some vid
      → d.log ≡ log
      → Loaded d sv (load_record cxof ops vid f log sv)
  unfolding load_record
  load_record-Loaded d sv vid no_record log e q = ignored sv refl
  load_record-Loaded d sv vid damaged log e q = refused _ vid e refl
  load_record-Loaded d sv vid (found r) log e q = elim (Option-cases r.ended) [
    | inl h ↦ rw (load_record, h) (load_live-Loaded d sv vid r log e q)
    | inr (t, h) ↦ rw (load_record, h) (refused _ vid e refl)
  ]

  pub load_dir-Loaded : (d : VaultDir S) (sv : Server S) → Loaded d sv (load_dir cxof ops d sv)
  unfolding load_dir
  load_dir-Loaded d sv = elim (Bool-cases d.is_dir) [
    | inr n ↦ simp (load_dir, n) (ignored sv refl)
    | inl n ↦ elim (Option-cases (parse_vault_id d.name)) [
      | inl p ↦ simp (load_dir, n, p) (ignored sv refl)
      | inr (vid, p) ↦
          let e : dir_id d ≡ some vid = simp n p in
          simp (load_dir, n, p) (load_record-Loaded d sv vid d.found_record d.log e refl)
    ]
  ]

  load_record-refuses :
      (sv : Server S) (vid : Bytes) (f : FoundRecord) (log : Option S)
      → IsRefused f
      → load_record cxof ops vid f log sv ≡ revoke_id cxof ops vid sv
  unfolding load_record load_live
  load_record-refuses sv vid no_record log h = absurd h
  load_record-refuses sv vid damaged log h = refl
  load_record-refuses sv vid (found r) log h = elim (Option-cases r.ended) [
    | inr (t, e) ↦ rw (load_record, e) refl
    | inl e ↦ elim h [ inl (t, e') ↦ absurd (cc) | inr a ↦ rw (load_record, e, load_live, a) refl ]
  ]

  load_dir-refuses :
      (d : VaultDir S) (sv : Server S) (vid : Bytes)
      → dir_id d ≡ some vid
      → IsRefused d.found_record
      → load_dir cxof ops d sv ≡ revoke_id cxof ops vid sv
  unfolding load_dir
  load_dir-refuses d sv vid e h = elim (Bool-cases d.is_dir) [
    | inr n ↦ absurd (cc (simp n at e))
    | inl n ↦
        let p : parse_vault_id d.name ≡ some vid = simp n at e in
        simp (load_dir, n, p) (load_record-refuses sv vid d.found_record d.log h)
  ]

  -- No two directories are named for one vault.
  abbrev Apart : VaultDir S → VaultDir S → Type 0
  Apart d e = (vid : Bytes) → dir_id d ≡ some vid → dir_id e ≡ some vid → ⊥

  abbrev pub AreDistinct : List (VaultDir S) → Type 0
  AreDistinct [] = Unit {0}
  AreDistinct (d ∷ ds) = All (Apart d) ds × AreDistinct ds

  abbrev pub In : VaultDir S → List (VaultDir S) → Type 0
  In d [] = ⊥
  In d (e ∷ es) = (d ≡ e) ⊎ In d es

  abbrev Awaits : Server S → VaultDir S → Type 0
  Awaits sv d = (vid : Bytes) → dir_id d ≡ some vid → IsUnused vid sv

  other_id :
      (d e : VaultDir S) (vid v : Bytes)
      → Apart d e
      → dir_id d ≡ some vid
      → dir_id e ≡ some v
      → bytes_eq vid v ≡ false
  other_id d e vid v a p q = elim (Bool-cases (bytes_eq vid v)) [
    | inr b ↦ b
    | inl b ↦ absurd (a vid p (q ∙ ap some (sym ((bytes_eq_iff vid v).0 b))))
  ]

  Loaded-Awaits :
      {sv sv' : Server S}
      → (d e : VaultDir S) → Loaded d sv sv'
      → Apart d e
      → Awaits sv e
      → Awaits sv' e
  unfolding install
  Loaded-Awaits d e (ignored sv' s) a w vid q = rw s (w vid q)
  Loaded-Awaits {sv} d e (refused sv' v p s) a w vid q =
      let (not_revoked, absent) = w vid q in
      let other = other_id d e v vid a p q in
      rw s (rw (has_id-cons vid v sv.revoked, other) not_revoked, absent)
  Loaded-Awaits {sv} d e (served sv' v st p alive loaded s) a w vid q =
      let (not_revoked, absent) = w vid q in
      let other = other_id d e v vid a p q in
      rw s (not_revoked, rw (lookup-set_key v vid sv.next sv.vaults, other) absent)

  Loaded-IsRegistry :
      {sv sv' : Server S}
      → (d : VaultDir S) → Loaded d sv sv'
      → Awaits sv d
      → IsRegistry sv
      → IsRegistry sv'
  Loaded-IsRegistry d (ignored sv' s) w h = rw s h
  Loaded-IsRegistry {sv} d (refused sv' vid p s) w h =
      let (_, absent) = w vid p in
      rw s (record {
        live = λ v ref l.
            let (not_revoked, alive, old) = h.live v ref l in
            let other : bytes_eq vid v ≡ false = elim (Bool-cases (bytes_eq vid v)) [
              | inr b ↦ b
              | inl b ↦
                  let same : lookup vid sv.vaults ≡ lookup v sv.vaults =
                    ap (λ i. lookup i sv.vaults) ((bytes_eq_iff vid v).0 b) in
                  absurd (cc)
            ] in
            (rw (has_id-cons v vid sv.revoked, other) not_revoked, alive, old);
        owned = h.owned;
      })
  Loaded-IsRegistry {sv} d (served sv' vid st p alive loaded s) w h =
      rw s (
        begin-IsRegistry cxof ops (λ x. Unit {0}) (λ x. []) (λ x n. ⊥) sv vid st (w vid p).0 alive
          h)

  Loaded-revoked :
      {sv sv' : Server S}
      → (d : VaultDir S) (v : Bytes) → Loaded d sv sv'
      → has_id v sv.revoked ≡ true
      → has_id v sv'.revoked ≡ true
  unfolding install
  Loaded-revoked d v (ignored sv' s) h = rw s h
  Loaded-revoked {sv} d v (refused sv' vid p s) h =
      rw (s, has_id-cons v vid sv.revoked) (ground arith)
  Loaded-revoked d v (served sv' vid st p alive loaded s) h = rw s h

  load_loop-IsRegistry :
      (ds : List (VaultDir S)) (sv : Server S)
      → AreDistinct ds
      → All (Awaits sv) ds
      → IsRegistry sv
      → IsRegistry (load_loop cxof ops ds sv)
  unfolding load_loop
  load_loop-IsRegistry [] sv x w h = h
  load_loop-IsRegistry (d ∷ ds) sv (a, x) (wd, w) h =
      let l = load_dir-Loaded d sv in
      load_loop-IsRegistry ds (load_dir cxof ops d sv) x (still ds a w) (Loaded-IsRegistry d l wd h)
    where
      still :
          (es : List (VaultDir S))
          → All (Apart d) es
          → All (Awaits sv) es
          → All (Awaits (load_dir cxof ops d sv)) es
      still [] a w = tt
      still (e ∷ es) (a, as') (we, ws) =
          (Loaded-Awaits d e (load_dir-Loaded d sv) a we, still es as' ws)

  load_loop-revoked :
      (ds : List (VaultDir S)) (sv : Server S) (v : Bytes)
      → has_id v sv.revoked ≡ true
      → has_id v (load_loop cxof ops ds sv).revoked ≡ true
  unfolding load_loop
  load_loop-revoked [] sv v h = h
  load_loop-revoked (d ∷ ds) sv v h =
      load_loop-revoked ds (load_dir cxof ops d sv) v (Loaded-revoked d v (load_dir-Loaded d sv) h)

  load_loop-refuses :
      (ds : List (VaultDir S)) (sv : Server S) (d : VaultDir S) (vid : Bytes)
      → In d ds
      → dir_id d ≡ some vid
      → IsRefused d.found_record
      → has_id vid (load_loop cxof ops ds sv).revoked ≡ true
  unfolding load_loop
  load_loop-refuses [] sv d vid i e h = absurd i
  load_loop-refuses (d' ∷ ds) sv d vid (inr i) e h =
      load_loop-refuses ds (load_dir cxof ops d' sv) d vid i e h
  load_loop-refuses (d' ∷ ds) sv d vid (inl i) e h =
      let here_refused = load_dir-refuses d sv vid e h in
      let listed : has_id vid (load_dir cxof ops d sv).revoked ≡ true =
        rw (here_refused, has_id-cons vid vid sv.revoked, bytes_eq_refl vid) refl in
      load_loop-revoked ds (load_dir cxof ops d' sv) vid
        (ap (λ x. has_id vid (load_dir cxof ops x sv).revoked) (sym i) ∙ listed)

  IsUnused-in_new :
      (opt : Options) (records : List (Bytes × VaultRecord)) (vid : Bytes)
      → IsUnused vid (new_server cxof ops opt records)
  unfolding new_server lookup has_id
  IsUnused-in_new opt records vid = (refl, refl)

  pub new_server-IsRegistry :
      (opt : Options) (records : List (Bytes × VaultRecord))
      → IsRegistry (new_server cxof ops opt records)
  new_server-IsRegistry opt records =
      let absent = λ (vid : Bytes). (IsUnused-in_new opt records vid).1 in
      record {
        live = λ vid ref l. let none_there = absent vid in absurd (cc);
        owned = λ vid vid' ref l l'. let none_there = absent vid in absurd (cc);
      }

  -- A start over directories that are named for different vaults makes a well-formed registry, in which
  -- every vault is revoked whose record cannot be read, says that it ended, or has no AuthKey.
  pub start_refuses_ended :
      (ds : List (VaultDir S)) (opt : Options) (records : List (Bytes × VaultRecord))
      → AreDistinct ds
      → IsRegistry (load_loop cxof ops ds (new_server cxof ops opt records))
        × ((d : VaultDir S) (vid : Bytes)
            → In d ds
            → dir_id d ≡ some vid
            → IsRefused d.found_record
            → has_id vid (load_loop cxof ops ds (new_server cxof ops opt records)).revoked ≡ true)
  start_refuses_ended ds opt records x =
      let sv = new_server cxof ops opt records in
      (
        load_loop-IsRegistry ds sv x (unused ds) (new_server-IsRegistry opt records),
        λ d vid i e h. load_loop-refuses ds sv d vid i e h,
      )
    where
      unused : (es : List (VaultDir S)) → All (Awaits (new_server cxof ops opt records)) es
      unused [] = tt
      unused (e ∷ es) = (λ vid p. IsUnused-in_new opt records vid, unused es)
