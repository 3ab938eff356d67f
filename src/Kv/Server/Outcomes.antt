-- ===== src/Kv/Server/Outcomes.antt =====
-- What a PUSH comes to, on every branch.
use repani.Base.{
  ℕ, ◌+◌, ◌^◌, ◌<◌, ◌≡◌, refl, ◌∙◌, true, false, ◌&&◌, List, [], ◌++◌, Bytes, length, ltb,
  le→ltb_false, if◌then◌else◌, Option, none, some, ok, err, arith,
}
use repani.Kv.Vault.Entry.{Entry}
use repani.Kv.Wire.Resp.{status_ok, status_quota}
use repani.Kv.Server.Quotas.{Quotas}
use repani.Kv.Server.State.{StoreOps, VaultState, Env}
use repani.Kv.Server.Pushes.{Refusal, add_validated_locked, charge}
use repani.Kv.Server.Serve.{Served, served, refusal_status, serve_push}
use repani.Kv.Server.Laws.{StoreLaws, total_size}
use repani.Kv.Server.Pushes.Validation.{fresh_of, verdict, validate_new-verdict}
use repani.Kv.Server.Accounts.{IsBounded, HasAccounts}

module _ {S A : Type 0} (cxof : Bytes → Bytes → Bytes) (ops : StoreOps S A) (IsGood : S → Type 0)
    (held : S → List Entry) where
  -- The result of a PUSH: the vault untouched with the status of the refusal, or with QUOTA where it
  -- takes no pushes and something is new; the store failed, with the same entries and accounts; or
  -- exactly the new entries added and charged, with a notification where there are any.
  pub data Pushed (now : ℕ) (q : Quotas) (pushes : List Entry) (st : VaultState S)
      : VaultState S × Option Served → Type 0 where
    refused :
        (r : Refusal)
        → verdict cxof ops now q st pushes true ≡ err r
        → Pushed now q pushes st (st, some (served (refusal_status r)))
    no_pushes :
        (news : List Entry)
        → verdict cxof ops now q st pushes true ≡ ok news
        → st.no_push ≡ true
        → 0 < length news
        → Pushed now q pushes st (st, some (served status_quota))
    failed :
        (st' : VaultState S)
        → held st'.s ≡ held st.s
        → st'.bytes ≡ st.bytes
        → st'.changed ≡ st.changed
        → Pushed now q pushes st (st', none)
    accepted :
        (news : List Entry) (st' : VaultState S) (n : ℕ)
        → verdict cxof ops now q st pushes true ≡ ok news
        → n ≡ length news
        → (st.no_push && ltb 0 n) ≡ false
        → held st'.s ≡ held st.s ++ news
        → st'.bytes ≡ st.bytes + total_size news
        → st'.changed ≡ st.changed + (if ltb 0 n then 1 else 0)
        → Pushed now q pushes st (st', some (record { status = status_ok; page = []; pushed = n }))

  module _ (laws : StoreLaws cxof ops IsGood held) where
    fresh_verdict :
        (now : ℕ) (q : Quotas) (pushes : List Entry) (st : VaultState S)
        → HasAccounts cxof ops IsGood held q st
        → fresh_of cxof ops st.s [] pushes ≡ []
        → verdict cxof ops now q st pushes true ≡ ok []
    unfolding verdict total_size
    fresh_verdict now q pushes st h none_new =
        let lens = laws.len_held st.s h.store_good in
        let few_entries = h.few_entries in
        let few_bytes = h.few_bytes in
        let count : ltb q.max_entries (ops.len st.s + 0) ≡ false =
          le→ltb_false q.max_entries (ops.len st.s + 0) (omega arith) in
        let weight : ltb q.max_vault_bytes (st.bytes + 0) ≡ false =
          le→ltb_false q.max_vault_bytes (st.bytes + 0) (omega arith) in
        rw (none_new, count, weight) refl

    -- A PUSH of nothing but entries that a vault in balance already holds answers OK and changes
    -- nothing, also where the vault takes no pushes and where the entries are late by now.
    pub repush_is_noop :
        (env : Env S A) (q : Quotas) (pushes : List Entry) (st : VaultState S)
        → IsBounded q
        → HasAccounts cxof ops IsGood held q st
        → env.now < 2 ^ 63
        → total_size pushes < 2 ^ 63
        → fresh_of cxof ops st.s [] pushes ≡ []
        → serve_push cxof ops env q pushes st ≡ (st, some (served status_ok))
    unfolding serve_push add_validated_locked charge
    repush_is_noop env q pushes st b h clock small none_new =
        let entries_bound = b.entries_bound in
        let bytes_bound = b.bytes_bound in
        let skew_bound = b.skew_bound in
        let few_entries = h.few_entries in
        let few_bytes = h.few_bytes in
        let lens = laws.len_held st.s h.store_good in
        let valid =
          validate_new-verdict cxof ops env.now q st pushes true (omega arith) (omega arith)
            (omega arith)
          ∙ fresh_verdict env.now q pushes st h none_new in
        let quiet : (st.no_push && ltb 0 0) ≡ false = ground arith in
        rw (serve_push, valid, quiet)
          (simp (add_validated_locked, laws.add_empty env.answer st.s) refl)
