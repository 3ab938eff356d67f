-- ===== src/Kv/Server/Waits.antt =====
-- WAIT: what holds of a vault while a request waits on it.
use repani.Base.{
  ℕ, ◌≤◌, ◌<◌, ◌≡◌, inl, inr, refl, sym, ap, ◌∙◌, subst, true, false, List, [], Bytes, ltb,
  ltb_false→le, ◌==◌, ==_iff, Bool-cases, Option, some, Option-cases, arith,
}
use repani.Kv.Vault.Aead.{Aead}
use repani.Kv.Vault.Entry.{Entry}
use repani.Kv.Store.Canonical.{bytes_eq, bytes_eq_iff}
use repani.Kv.Server.Quotas.{Quotas}
use repani.Kv.Server.State.{StoreOps, VaultState, Server, Env, put_state, set_state, with_store}
use repani.Kv.Server.Lifecycle.{ended_state, revoke, install, close_state}
use repani.Kv.Server.Pushes.{add_validated_locked}
use repani.Kv.Server.Frames.{Held, Outcome, held, handle_wait, wake, set_changed, fires}
use repani.Kv.Server.Replies.{seal_resp}
use repani.Kv.Wire.Resp.{status_ok}
use repani.Kv.Server.Laws.{StoreLaws}
use repani.Kv.Server.Moves.{
  Move, Moves, Touch, touch, end_vault, begin_vault, write_record, call_hook, shut_down, here, more,
  left_alone, hashed, flagged, shut, pushed_to, then-Moves, one-Move,
}
use repani.Kv.Server.Accounts.{IsBounded}
use repani.Kv.Server.Accounts.Vaults.{IsAccounted, Moves-IsAccounted}
use repani.Kv.Server.Registry.{get-put_same, get-put_other}
use repani.Kv.Server.Steps.{Reach, Reach-Moves}

module _ {S A : Type 0} (cxof : Bytes → Bytes → Bytes) (ops : StoreOps S A) (IsGood : S → Type 0)
    (held_in : S → List Entry) (Began : List Entry → ℕ → Type 0) where
  abbrev pub hash_of : VaultState S → Bytes
  hash_of st = (ops.set_hash st.s).1

  -- A later state of a vault: while no channel was closed since, the set's hash is the same and the
  -- vault has not ended.
  pub record Later (st st' : VaultState S) : Type 0 where
    pub grown : st.changed ≤ st'.changed
    pub unmoved : st'.changed ≡ st.changed → (st'.gone ≡ st.gone) × (hash_of st' ≡ hash_of st)

  Later-refl : (st : VaultState S) → Later st st
  Later-refl st = record { grown = omega arith; unmoved = λ e. (refl, refl) }

  Later-trans : (a b c : VaultState S) → Later a b → Later b c → Later a c
  Later-trans a b c l m =
      let up = l.grown in
      let on = m.grown in
      record {
        grown = omega arith;
        unmoved = λ e.
            let (g1, h1) = l.unmoved (omega arith) in
            let (g2, h2) = m.unmoved (omega arith) in (g2 ∙ g1, h2 ∙ h1);
      }

  module _ (laws : StoreLaws cxof ops IsGood held_in) where
    Touch-Later :
        {q : Quotas} {st st' : VaultState S}
        → IsGood st.s
        → Touch cxof ops IsGood held_in q st st'
        → Later st st'
    unfolding with_store close_state add_validated_locked
    Touch-Later good (left_alone st) = Later-refl st
    Touch-Later good (hashed st) = record {
      grown = omega arith;
      unmoved = λ e. (refl, laws.set_hash_again st.s good);
    }
    Touch-Later good (flagged st v) = record { grown = omega arith; unmoved = λ e. (refl, refl) }
    Touch-Later good (shut st) = record {
      grown = omega arith;
      unmoved = λ e. (refl, laws.close_hash st.s good);
    }
    Touch-Later good (pushed_to st now check pushes a news g clock small valid) =
        elim (Option-cases (ops.add a news st.s).1) [
          | inl e ↦
              let (_, same) = laws.add_err a news st.s good e in
              rw (add_validated_locked, e)
                (record { grown = omega arith; unmoved = λ h. (refl, same) })
          | inr (n, e) ↦ elim (Bool-cases (ltb 0 n)) [
            | inl some_new ↦
                rw (add_validated_locked, e, some_new)
                  (record { grown = omega arith; unmoved = λ h. absurd (omega arith) })
            | inr none_new ↦
                let none : n ≡ 0 = omega (arith, ltb_false→le 0 n none_new) in
                let same = laws.add_nothing a news st.s good (e ∙ ap some none) in
                rw (add_validated_locked, e, none_new)
                  (record { grown = omega arith; unmoved = λ h. (refl, same) })
          ]
        ]

    put-Later :
        (heap : ℕ → VaultState S) (ref r : ℕ) (st : VaultState S)
        → Later (heap ref) st
        → Later (heap r) (put_state ref st heap r)
    put-Later heap ref r st l = elim (Bool-cases (r == ref)) [
      | inl e ↦
          let same : r ≡ ref = (==_iff r ref).0 e in
          subst (λ i. Later (heap i) (put_state ref st heap i)) (sym same)
            (subst (λ v. Later (heap ref) v) (sym (get-put_same ref st heap)) l)
      | inr e ↦
          subst (λ v. Later (heap r) v) (sym (get-put_other ref r st heap e)) (Later-refl (heap r))
    ]

    Move-Later :
        {sv sv' : Server S}
        → (r : ℕ) → r < sv.next
        → IsAccounted cxof ops IsGood held_in Began laws sv
        → Move cxof ops IsGood held_in Began sv sv'
        → Later (sv.heap r) (sv'.heap r) × (sv.next ≤ sv'.next)
    unfolding revoke install ended_state
    Move-Later r old h (touch sv ref st t) =
        (put-Later sv.heap ref r st (Touch-Later (h ref).1.1.1.store_good t), omega arith)
    Move-Later r old h (end_vault sv vid ref l) = (
      put-Later sv.heap ref r (ended_state ops (sv.heap ref))
          (record { grown = omega arith; unmoved = λ e. absurd (omega arith) }),
      omega arith,
    )
    Move-Later r old h (begin_vault sv vid st f l n) = (
      subst (λ v. Later (sv.heap r) v)
          (sym (
            get-put_other sv.next r st sv.heap
              (let e : (r == sv.next) ≡ false = ground arith in e)))
          (Later-refl (sv.heap r)),
      omega arith,
    )
    Move-Later r old h (write_record sv rs) = (Later-refl (sv.heap r), omega arith)
    Move-Later r old h (call_hook sv calls) = (Later-refl (sv.heap r), omega arith)
    Move-Later r old h (shut_down sv) = (Later-refl (sv.heap r), omega arith)

    pub Moves-Later :
        {sv sv' : Server S}
        → (r : ℕ) → r < sv.next
        → IsBounded sv.quotas
        → IsAccounted cxof ops IsGood held_in Began laws sv
        → Moves cxof ops IsGood held_in Began sv sv'
        → Later (sv.heap r) (sv'.heap r) × (sv.next ≤ sv'.next)
    Moves-Later r old b h here = (Later-refl _, omega arith)
    Moves-Later r old b h (more ms m) =
        let (l, up) = Moves-Later r old b h ms in
        let (h1, b1) = Moves-IsAccounted cxof ops IsGood held_in Began laws b ms h in
        let (k, on) = Move-Later r (omega arith) h1 m in (Later-trans _ _ _ l k, omega arith)

    module _ (new_aead : Bytes → Option Aead) where
      held_inj : {a b : Held} → held a ≡ held b → a ≡ b
      held_inj e = cc e

      -- What a held WAIT remembers.
      held_wait :
          (env : Env S A) (vid nonce want : Bytes) (ref : ℕ) (sv sv1 : Server S) (w : Held)
          → handle_wait cxof new_aead ops env vid nonce ref want sv ≡ (sv1, held w)
          → (w.ref ≡ ref)
            × (w.want ≡ want)
            × (w.generation ≡ (sv.heap ref).changed)
            × ((sv.heap ref).gone ≡ false)
            × (hash_of (sv.heap ref) ≡ want)
            × (sv1 ≡ set_state ref (with_store (ops.set_hash (sv.heap ref).s).0 (sv.heap ref)) sv)
      unfolding handle_wait
      held_wait env vid nonce want ref sv sv1 w e = elim (Bool-cases (sv.heap ref).gone) [
        | inl g ↦ absurd (cc (simp (handle_wait, g) at e))
        | inr g ↦ elim (Bool-cases (sv.heap ref).closed) [
          | inl c ↦ absurd (cc (simp (handle_wait, g, c) at e))
          | inr c ↦ elim (Bool-cases (bytes_eq (hash_of (sv.heap ref)) want)) [
            | inr b ↦ absurd (cc (simp (handle_wait, g, c, b) at e))
            | inl b ↦
                let k = simp (handle_wait, g, c, b) at e in
                let w_eq = held_inj (ap (λ (r : Server S × Outcome). r.1) k) in
                (
                  ap (λ (x : Held). x.ref) (sym w_eq),
                  ap (λ (x : Held). x.want) (sym w_eq),
                  ap (λ (x : Held). x.generation) (sym w_eq),
                  g,
                  (bytes_eq_iff (hash_of (sv.heap ref)) want).0 b,
                  sym (ap (λ (r : Server S × Outcome). r.0) k),
                )
          ]
        ]
      ]

      -- A WAIT that is held on a vault of a well-formed server, and whose vault has not woken it after
      -- any further steps (at clocks and with pushes below 2^63, where the logs opened for new vaults are
      -- good stores of fewer than 2^63 entries): the vault has not ended, its set still has the hash that the client named,
      -- and waking the WAIT then would answer OK. So as soon as another answer is due, the wait ends.
      pub no_lost_wakeup :
          (env : Env S A) (vid nonce want : Bytes) (ref : ℕ) (sv sv1 sv2 : Server S) (w : Held)
          → IsBounded sv.quotas
          → IsAccounted cxof ops IsGood held_in Began laws sv
          → ref < sv.next
          → handle_wait cxof new_aead ops env vid nonce ref want sv ≡ (sv1, held w)
          → Reach cxof new_aead ops IsGood held_in Began sv1 sv2
          → fires set_changed w sv2 ≡ false
          → ((sv2.heap ref).gone ≡ false)
            × (hash_of (sv2.heap ref) ≡ want)
            × ((env' : Env S A)
                → (wake cxof new_aead ops env' w sv2).1
                  ≡ seal_resp cxof new_aead env' w.vault_id
                      (sv2.heap w.ref).s2c
                      w.nonce
                      status_ok
                      [])
      unfolding fires wake
      no_lost_wakeup env vid nonce want ref sv sv1 sv2 w b h old e steps quiet =
          let (at, wanted, gen, alive, hash, first) = held_wait env vid nonce want ref sv sv1 w e in
          let start = one-Move (touch sv ref _ (hashed (sv.heap ref))) in
          let begun = subst (λ s. Moves cxof ops IsGood held_in Began sv s) (sym first) start in
          let (l, _) =
            Moves-Later ref old b h
              (then-Moves begun (Reach-Moves cxof new_aead ops IsGood held_in Began laws steps)) in
          let stays : (sv2.heap w.ref).changed ≡ w.generation =
            (==_iff (sv2.heap w.ref).changed w.generation).0 (ground arith) in
          let same : (sv2.heap ref).changed ≡ (sv.heap ref).changed =
            ap (λ (r : ℕ). (sv2.heap r).changed) (sym at) ∙ stays ∙ gen in
          let (gone, hashes) = l.unmoved same in
          let live : (sv2.heap w.ref).gone ≡ false =
            ap (λ (r : ℕ). (sv2.heap r).gone) at ∙ gone ∙ alive in
          let current : bytes_eq (hash_of (sv2.heap w.ref)) w.want ≡ true =
            (bytes_eq_iff _ _).1
              (ap (λ (r : ℕ). hash_of (sv2.heap r)) at ∙ hashes ∙ hash ∙ sym wanted) in
          (
            gone ∙ alive,
            hashes ∙ hash,
            λ env'. elim (Bool-cases (sv2.heap w.ref).closed) [
              | inl c ↦ simp (wake, live, c) refl
              | inr c ↦ simp (wake, live, c, current) refl
            ],
          )
