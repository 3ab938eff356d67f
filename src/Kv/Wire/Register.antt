-- ===== src/Kv/Wire/Register.antt =====
-- kv/wire/wire.go: REGISTER payloads, an AuthKey and a flags byte only when a flag is set.
pub mod RoundTrip
use Prim.Native.Nat.{bit_and}
use repani.Base.{
  ℕ, ◌+◌, ◌≡◌, Bool, false, [], ◌∷◌, ◌++◌, length, take, Bytes, get_or, ◌==◌, not, if◌then◌else◌,
  Result, ok, err,
}
use repani.Kv.Vault.Sizes.{auth_key_size}
use repani.Kv.Wire.Errors.{WireError, malformed}

abbrev pub register_ephemeral : ℕ
register_ephemeral = 0x01

-- RegisterPayload
unfoldable pub register_payload : Bytes → Bool → Bytes
register_payload ak ephemeral = if not ephemeral then ak else ak ++ register_ephemeral ∷ []

-- ParseRegister. `flags &^ RegisterEphemeral` clears the lowest bit of a byte.
unfoldable pub parse_register : Bytes → Result WireError (Bytes × Bool)
parse_register payload =
    if length payload == auth_key_size
    then ok (take auth_key_size payload, false)
    else if length payload == auth_key_size + 1
    then (let flags = get_or payload auth_key_size 0 in
        if not (bit_and flags 0xfe == 0)
        then err malformed
        else ok (take auth_key_size payload, not (bit_and flags register_ephemeral == 0)))
    else err malformed
