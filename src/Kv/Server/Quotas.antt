-- ===== src/Kv/Server/Quotas.antt =====
-- kv/server/server.go: Quotas. The durations are Go's int64 in milliseconds, here not negative.
use repani.Base.{ℕ, ◌*◌, ◌^◌, ◌==◌, if◌then◌else◌}

pub record Quotas : Type 0 where
  pub max_entries : ℕ
  pub max_vault_bytes : ℕ
  pub max_vaults : ℕ
  pub ts_skew_ms : ℕ
  pub ephemeral_ttl_ms : ℕ
  pub wait_max_ms : ℕ

-- wire.WaitMaxMs
abbrev pub wire_wait_max_ms : ℕ
wire_wait_max_ms = 25000

-- DefaultQuotas
abbrev pub default_quotas : Quotas
default_quotas = record {
  max_entries = 10000;
  max_vault_bytes = 8 * 2 ^ 20;
  max_vaults = 1000;
  ts_skew_ms = 24 * 60 * 60 * 1000;
  ephemeral_ttl_ms = 60 * 60 * 1000;
  wait_max_ms = wire_wait_max_ms;
}

-- cmp.Or of two integers
abbrev pub or_default : ℕ → ℕ → ℕ
or_default a b = if a == 0 then b else a

-- withDefaults
unfoldable pub with_defaults : Quotas → Quotas
with_defaults q = record {
  max_entries = or_default q.max_entries default_quotas.max_entries;
  max_vault_bytes = or_default q.max_vault_bytes default_quotas.max_vault_bytes;
  max_vaults = or_default q.max_vaults default_quotas.max_vaults;
  ts_skew_ms = or_default q.ts_skew_ms default_quotas.ts_skew_ms;
  ephemeral_ttl_ms = or_default q.ephemeral_ttl_ms default_quotas.ephemeral_ttl_ms;
  wait_max_ms = or_default q.wait_max_ms default_quotas.wait_max_ms;
}
