-- ===== src/Kv/Wire/PreChannel.antt =====
-- kv/wire/wire.go: the single byte that a server answers with when it has no key to seal a RESP.
use repani.Base.{ℕ, [], ◌∷◌, Bytes}

pub data PreChannel : Type 0 where
  err_bad_frame err_bad_version err_bad_kind err_unknown_vault err_bad_auth err_try_later :
      PreChannel

abbrev pub pre_channel_byte : PreChannel → ℕ
pre_channel_byte err_bad_frame = 0xe0
pre_channel_byte err_bad_version = 0xe1
pre_channel_byte err_bad_kind = 0xe2
pre_channel_byte err_unknown_vault = 0xe3
pre_channel_byte err_bad_auth = 0xe4
pre_channel_byte err_try_later = 0xe5

-- Reply
unfoldable pub reply : PreChannel → Bytes
reply p = pre_channel_byte p ∷ []
