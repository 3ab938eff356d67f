-- ===== src/Kv/Samples.antt =====
-- Data for the tests of kv: a cipher, a hash and entries that the interfaces and predicates admit.
use repani.Base.{
  ℕ, zero, suc, ◌+◌, ◌-◌, ◌^◌, ◌≡◌, ◌<◌, refl, ap, List, [], ◌∷◌, ◌++◌, All, All-append, length,
  length-append, replicate, take, take-append, Bytes, IsByte, ltb, if◌then◌else◌, Option, none,
  some, arith,
}
use repani.Kv.Vault.Aead.{Aead}
use repani.Kv.Vault.Entry.{Entry, IsStorable}

pub replicate-IsByte : (n b : ℕ) → b < 256 → All IsByte (replicate n b)
replicate-IsByte zero b h = tt
replicate-IsByte (suc n) b h = (h, replicate-IsByte n b h)

-- The plaintext with a tag of zeros.
abbrev pub plain_seal : Bytes → Bytes
plain_seal pt = pt ++ replicate 16 0

abbrev pub plain_open : Bytes → Option Bytes
plain_open ct = some (take (length ct - 16) ct)

pub length-plain_seal : (pt : Bytes) → length (plain_seal pt) ≡ length pt + 16
length-plain_seal pt = omega (arith, length-append pt (replicate 16 0))

pub plain_open-plain_seal : (pt : Bytes) → plain_open (plain_seal pt) ≡ some pt
plain_open-plain_seal pt = ap some (
    take-append (length (plain_seal pt) - 16) pt (replicate 16 0)
      (omega (arith, length-plain_seal pt)))

abbrev pub plain_aead : Aead
plain_aead = record {
  seal = λ nonce pt ad. plain_seal pt;
  open_sealed = λ nonce ct ad. plain_open ct;
  length-seal = λ nonce pt ad. length-plain_seal pt;
  seal-IsByte = λ nonce pt ad h.
      All-append IsByte pt (replicate 16 0) h (replicate-IsByte 16 0 (omega arith));
  open-seal = λ nonce pt ad h. plain_open-plain_seal pt;
}

-- ascon.NewAEAD's one check, for that cipher.
abbrev pub plain_new_aead : Bytes → Option Aead
plain_new_aead k = if ltb (length k) 16 then none else some plain_aead

-- The first bytes of the message, so that the ids of entries with other timestamps differ.
abbrev pub first_bytes : Bytes → Bytes → Bytes
first_bytes label msg = take 16 (msg ++ replicate 16 0)

abbrev pub entry_of : ℕ → Entry
entry_of ts = record { ts_ms = ts; nonce = replicate 16 1; ct = replicate 16 2 }

pub entry_of-IsStorable : (ts : ℕ) → ts < 2 ^ 64 → IsStorable (entry_of ts)
entry_of-IsStorable ts h = record {
  typed = record {
    ts_fits = h;
    nonce_length = refl;
    nonce_bytes = replicate-IsByte 16 1 (omega arith);
    ct_bytes = replicate-IsByte 16 2 (omega arith);
  };
  has_tag = omega arith;
  fits = omega arith;
}

abbrev pub first_entry : Entry
first_entry = entry_of 5

abbrev pub second_entry : Entry
second_entry = entry_of 3

abbrev pub both_entries : List Entry
both_entries = first_entry ∷ second_entry ∷ []

pub first_entry-IsStorable : IsStorable first_entry
first_entry-IsStorable = entry_of-IsStorable 5 (omega arith)

pub second_entry-IsStorable : IsStorable second_entry
second_entry-IsStorable = entry_of-IsStorable 3 (omega arith)

pub both_entries-IsStorable : All IsStorable both_entries
both_entries-IsStorable = (first_entry-IsStorable, (second_entry-IsStorable, tt))
