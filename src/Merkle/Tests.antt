-- ===== src/Merkle/Tests.antt =====
-- Merkle roots and proofs on small lists of hashes.
use distri_store.Prelude.{
  ℕ, zero, suc, ◌≡◌, ◌⊎◌, refl, true, List, [], ◌∷◌, Str, Bytes, replicate, IsAscii, str_eq, arith,
}
use distri_store.Merkle.{
  right, ProofStep, compute_merkle_root, compute_merkle_proof, verify_merkle_proof, apply_step,
}
use distri_store.Merkle.Complete.{verify-compute_merkle_proof}
use distri_store.Merkle.Inputs.{Clash, tree_inputs, proof_inputs}
use distri_store.Merkle.Binding.{
  IsHexDigest, compute_merkle_root_binding, verify_merkle_proof_binding,
}

abbrev digest : ℕ → Str
digest c = replicate 64 c

replicate-IsAscii : (n : ℕ) → IsAscii (replicate n 48)
replicate-IsAscii zero = tt
replicate-IsAscii (suc n) = (omega arith, replicate-IsAscii n)

digest-IsHexDigest : IsHexDigest (digest 48)
digest-IsHexDigest = record { size = refl; ascii = replicate-IsAscii 64 }

-- A hash with one value.
abbrev constant_hash : Bytes → Str
constant_hash b = digest 48

abbrev three : List Str
three = (97 ∷ []) ∷ (98 ∷ []) ∷ (99 ∷ []) ∷ []

verify-compute_merkle_proof_example :
    verify_merkle_proof
      (λ b. b)
      (99 ∷ [])
      (compute_merkle_proof (λ b. b) three 2)
      (compute_merkle_root (λ b. b) three)
    ≡ true
verify-compute_merkle_proof_example = verify-compute_merkle_proof (λ b. b) three 2 refl

abbrev leaves : List Str
leaves = digest 48 ∷ digest 48 ∷ []

compute_merkle_root_binding_example :
    (leaves ≡ leaves)
    ⊎ Clash constant_hash (tree_inputs constant_hash leaves) (tree_inputs constant_hash leaves)
compute_merkle_root_binding_example =
    compute_merkle_root_binding constant_hash (λ b. digest-IsHexDigest) leaves leaves
      (digest-IsHexDigest, (digest-IsHexDigest, tt)) (digest-IsHexDigest, (digest-IsHexDigest, tt))
      refl refl

abbrev audit_path : List ProofStep
audit_path = (record { hash = digest 48; position = right }) ∷ []

audit_path_accepted : verify_merkle_proof constant_hash (digest 48) audit_path (digest 48) ≡ true
unfolding verify_merkle_proof str_eq apply_step
audit_path_accepted = refl

verify_merkle_proof_binding_example :
    (digest 48 ≡ digest 48)
    ⊎ Clash constant_hash
        (proof_inputs constant_hash (digest 48) audit_path)
        (proof_inputs constant_hash (digest 48) audit_path)
verify_merkle_proof_binding_example =
    verify_merkle_proof_binding constant_hash (λ b. digest-IsHexDigest) (digest 48) (digest 48)
      audit_path audit_path (digest 48) digest-IsHexDigest digest-IsHexDigest
      (digest-IsHexDigest, tt) (digest-IsHexDigest, tt) refl audit_path_accepted audit_path_accepted
