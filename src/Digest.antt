-- ===== src/Digest.antt =====
-- `Digest` (the message of remote_execution.proto), its `operator==` and its text
-- (buildbox-common/buildboxcommon/buildboxcommon_protos.h).
use buildbox_common.Prelude.{
  ℕ, ◌≡◌, Bool, true, ◌&&◌, ◌++◌, arith, ◌==◌, Text, text_eq, text_eq→eq, text_eq_refl, codes,
}
use buildbox_common.Numbers.{to_string}

pub record Digest : Type 0 where
  pub hash_other : Text
  pub size_bytes : ℕ

-- `operator==`
unfoldable pub digest_eq : Digest → Digest → Bool
digest_eq a b = text_eq a.hash_other b.hash_other && a.size_bytes == b.size_bytes

pub digest_eq→eq : (a b : Digest) → digest_eq a b ≡ true → a ≡ b
unfolding digest_eq
digest_eq→eq a b h = ground (arith, text_eq→eq a.hash_other b.hash_other)

pub digest_eq_refl : (a : Digest) → digest_eq a a ≡ true
unfolding digest_eq
digest_eq_refl a = ground (arith, text_eq_refl a.hash_other)

-- `toString`, which `operator<<` prints.
unfoldable pub digest_to_string : Digest → Text
digest_to_string d = d.hash_other ++ (codes "/" ++ to_string d.size_bytes)
