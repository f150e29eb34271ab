-- ===== src/Support/Hash.antt =====
-- src/support/hash.rs: the FNV-1a hasher. Its state is a 32-bit number. The slices that a key's
-- `Hash::hash` passes to `write`, in order, are a parameter: they are the standard library's.
pub mod Bounds
use propeller_kernel.Prelude.{ℕ, ◌*◌, ◌%◌, ◌^◌, List, [], ◌∷◌, bit_xor}

abbrev pub fnv1a_basis : ℕ
fnv1a_basis = 0x811c9dc5

abbrev pub fnv1a_prime : ℕ
fnv1a_prime = 0x01000193

unfoldable pub new : ℕ
new = fnv1a_basis

unfoldable pub finish : ℕ → ℕ
finish state = state

unfoldable pub write : ℕ → List ℕ → ℕ
write state [] = state
write state (c ∷ bytes) = write (bit_xor state c * fnv1a_prime % 2 ^ 32) bytes

unfoldable pub build_hasher : ℕ
build_hasher = new

unfoldable pub write_all : ℕ → List (List ℕ) → ℕ
write_all state [] = state
write_all state (bytes ∷ rest) = write_all (write state bytes) rest

-- `HashMap::hash_key`: a fresh hasher, the key, and the state.
unfoldable pub hash_key : {K : Type 0} (writes : K → List (List ℕ)) → K → ℕ
hash_key writes key = finish (write_all build_hasher (writes key))
