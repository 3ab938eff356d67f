-- ===== src/Kv/Server/Endings.antt =====
-- The end of a vault, on disk and after a restart, and the cap on registrations.
use repani.Base.{
  ℕ, ◌≡◌, ◌⊎◌, inl, inr, refl, sym, ap, ◌∙◌, Bool, true, false, List, Bytes, if◌then◌else◌,
  Bool-cases, Option, none, some,
}
use repani.Kv.Store.Canonical.{has_id, has_id-cons, bytes_eq, bytes_eq_iff}
use repani.Kv.Server.Maps.{lookup, set_key, lookup-delete, lookup-set_key, bytes_eq_refl}
use repani.Kv.Server.Record.{VaultRecord, record_time, ended_record}
use repani.Kv.Server.State.{StoreOps, VaultState, Server, Env, served_record}
use repani.Kv.Server.Lifecycle.{end_locked, revoke}
use repani.Kv.Server.Registry.{get-put_same}

module _ {S A : Type 0} (ops : StoreOps S A) where
  -- What the end of a vault is: its identifier revoked, off the map, its state gone, and on disk, where
  -- it has a directory, a record that says when it ended.
  pub record HasEnded (now : ℕ) (vid : Bytes) (ref : ℕ) (sv sv' : Server S) : Type 0 where
    pub is_revoked : has_id vid sv'.revoked ≡ true
    pub off_map : lookup vid sv'.vaults ≡ none
    pub is_gone : (sv'.heap ref).gone ≡ true
    pub on_record :
        (dir : Bytes)
        → (sv.heap ref).dir ≡ some dir
        → (r : VaultRecord) × (lookup dir sv'.records ≡ some r) × (r.ended ≡ some (record_time now))
    pub others_kept :
        (v : Bytes) → bytes_eq vid v ≡ false → lookup v sv'.vaults ≡ lookup v sv.vaults

  revoke-HasEnded :
      (now : ℕ) (vid : Bytes) (ref : ℕ) (sv : Server S) (rs : List (Bytes × VaultRecord))
      → ((dir : Bytes)
          → (sv.heap ref).dir ≡ some dir
          → (r : VaultRecord) × (lookup dir rs ≡ some r) × (r.ended ≡ some (record_time now)))
      → HasEnded now vid ref sv (record (revoke ops vid ref sv) { records = rs })
  unfolding revoke
  revoke-HasEnded now vid ref sv rs on_disk = record {
    is_revoked = rw (has_id-cons vid vid sv.revoked, bytes_eq_refl vid) refl;
    off_map = rw (lookup-delete vid vid sv.vaults, bytes_eq_refl vid) refl;
    is_gone = ap (λ (st : VaultState S). st.gone) (get-put_same ref _ sv.heap);
    on_record = on_disk;
    others_kept = λ v other. rw (lookup-delete vid v sv.vaults, other) refl;
  }

  -- The record of the vault's end cannot be written, or it can, or the vault has no directory.
  abbrev pub CannotWrite : Env S A → VaultState S → Type 0
  CannotWrite env st = (dir : Bytes) × ((st.dir ≡ some dir) × (env.writes dir ≡ false))

  abbrev pub CanWrite : Env S A → VaultState S → Type 0
  CanWrite env st = (dir : Bytes) → st.dir ≡ some dir → env.writes dir ≡ true

  Ends : Env S A → Bytes → ℕ → Server S → Server S × Bool → Type 0
  Ends env vid ref sv r =
      (CannotWrite env (sv.heap ref) × (r ≡ (sv, false)))
      ⊎ (CanWrite env (sv.heap ref) × (r.1 ≡ true) × HasEnded env.now vid ref sv r.0)

  end_by : Option Bytes → Env S A → Bytes → ℕ → Bytes → Server S → Server S × Bool
  end_by d env vid ref note sv = elim d [
    | none ↦ (revoke ops vid ref sv, true)
    | some dir ↦
        if env.writes dir
        then (
          record (revoke ops vid ref sv) {
            records =
                set_key dir (ended_record env.now note (served_record (sv.heap ref))) sv.records;
          },
          true,
        )
        else (sv, false)
  ]

  end_by-Ends :
      (d : Option Bytes) (env : Env S A) (vid : Bytes) (ref : ℕ) (note : Bytes) (sv : Server S)
      → (sv.heap ref).dir ≡ d
      → Ends env vid ref sv (end_by d env vid ref note sv)
  unfolding end_by Ends ended_record revoke
  end_by-Ends none env vid ref note sv e = inr (
    (λ dir h. absurd (cc)),
    refl,
    revoke-HasEnded env.now vid ref sv sv.records (λ dir h. absurd (cc)),
  )
  end_by-Ends (some d) env vid ref note sv e = elim (Bool-cases (env.writes d)) [
    | inr w ↦ inl ((d, (e, w)), rw w refl)
    | inl w ↦
        let r = ended_record env.now note (served_record (sv.heap ref)) in
        let can : CanWrite env (sv.heap ref) =
          λ dir h. let same : d ≡ dir = cc (sym e ∙ h) in ap env.writes (sym same) ∙ w in
        inr (
          rw w (
            can,
            refl,
            revoke-HasEnded env.now vid ref sv (set_key d r sv.records) (λ dir h.
                let same : d ≡ dir = cc (sym e ∙ h) in
                (
                  r,
                  rw (lookup-set_key d dir r sv.records, (bytes_eq_iff d dir).1 same) refl,
                  refl,
                )),
          ))
  ]

  -- Where the vault has a directory whose record cannot be written, endLocked leaves the server as it
  -- was, and says so; else it ends the vault: on the map, in its
  -- state, and in its record, which says when it ended. The other vaults stay on the map as they were.
  pub end_locked_lem :
      (env : Env S A) (vid : Bytes) (ref : ℕ) (note : Bytes) (sv : Server S)
      → (CannotWrite env (sv.heap ref) × (end_locked ops env vid ref note sv ≡ (sv, false)))
        ⊎ (CanWrite env (sv.heap ref)
            × ((end_locked ops env vid ref note sv).1 ≡ true)
            × HasEnded env.now vid ref sv (end_locked ops env vid ref note sv).0)
  unfolding end_locked end_by Ends
  end_locked_lem env vid ref note sv = end_by-Ends (sv.heap ref).dir env vid ref note sv refl
