-- ===== src/Support/Hash/Bounds.antt =====
-- A hash by src/support/hash.rs is a 32-bit number.
use propeller_kernel.Prelude.{ℕ, ◌^◌, ◌*◌, ◌%◌, ◌<◌, List, [], ◌∷◌, arith, bit_xor}
use propeller_kernel.Support.Hash.{
  write, write_all, finish, build_hasher, new, hash_key, fnv1a_prime,
}

write-lt : (bytes : List ℕ) (state : ℕ) → state < 2 ^ 32 → write state bytes < 2 ^ 32
unfolding write
write-lt [] state h = h
write-lt (c ∷ bytes) state h = write-lt bytes (bit_xor state c * fnv1a_prime % 2 ^ 32) (omega arith)

write_all-lt :
    (slices : List (List ℕ)) (state : ℕ) → state < 2 ^ 32 → write_all state slices < 2 ^ 32
unfolding write_all
write_all-lt [] state h = h
write_all-lt (bytes ∷ rest) state h = write_all-lt rest (write state bytes) (write-lt bytes state h)

pub hash_key-lt : {K : Type 0} (writes : K → List (List ℕ)) (key : K) → hash_key writes key < 2 ^ 32
unfolding hash_key finish build_hasher new
hash_key-lt writes key = write_all-lt (writes key) 0x811c9dc5 (omega arith)
