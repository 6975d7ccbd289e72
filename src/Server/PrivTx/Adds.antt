-- ===== src/Server/PrivTx/Adds.antt =====
-- Which proofs a batch holds after a sequence of `add_proof` calls.
use doxa.Prelude.{
  take-append_full, take_all, ℕ, ◌≤◌, ◌<◌, ◌≡◌, refl, sym, ap, ◌∙◌, Bool, false, ◌&&◌, List, [],
  ◌∷◌, ◌++◌, none, arith, length, length-append, take, ◌==◌, if◌then◌else◌, ensure, Bool-cases, inl,
  inr, append_assoc, append-nil, dec_lt, ◌>>◌,
}
use doxa.Client.PublicInputs.{
  ProofWithPublicInputs, same_hash, hash_from, hash_at-hash_from, act_root, mainpool_config_root,
}
use doxa.Server.Batch.{
  BatchError, act_root_mismatch, mainpool_config_root_mismatch, priv_tx_batch_size,
}
use doxa.Server.PrivTx.{PrivateTxBatch, new, check_roots, add_proof}

-- A private transaction has 73 public inputs.
abbrev pub IsPrivTxProof : ProofWithPublicInputs → Type 0
IsPrivTxProof p = length p.public_inputs ≡ 73

abbrev pub AllPrivTxProofs : List ProofWithPublicInputs → Type 0
AllPrivTxProofs [] = Unit {0}
AllPrivTxProofs (p ∷ proofs) = IsPrivTxProof p × AllPrivTxProofs proofs

abbrev pub same_roots : ProofWithPublicInputs → ProofWithPublicInputs → Bool
same_roots first p =
    same_hash (hash_from p.public_inputs 0) (hash_from first.public_inputs 0)
    && same_hash (hash_from p.public_inputs 4) (hash_from first.public_inputs 4)

abbrev pub with_roots_of :
    ProofWithPublicInputs → List ProofWithPublicInputs → List ProofWithPublicInputs
with_roots_of first [] = []
with_roots_of first (p ∷ proofs) =
    let rest = with_roots_of first proofs in if same_roots first p then p ∷ rest else rest

-- The first proof, and those after it that share its roots.
abbrev pub agreeing : List ProofWithPublicInputs → List ProofWithPublicInputs
agreeing [] = []
agreeing (first ∷ proofs) = first ∷ with_roots_of first proofs

-- A sequence of calls, whatever each returns.
unfoldable pub add_all : List ProofWithPublicInputs → PrivateTxBatch → PrivateTxBatch
unfolding add_proof
add_all [] b = b
add_all (p ∷ proofs) b = add_all proofs (add_proof b p).0

abbrev pub holding : List ProofWithPublicInputs → PrivateTxBatch
holding proofs = record { proofs = proofs; batch_root = none }

abbrev pub same_act : ProofWithPublicInputs → ProofWithPublicInputs → Bool
same_act first p = same_hash (hash_from p.public_inputs 0) (hash_from first.public_inputs 0)

abbrev pub same_config : ProofWithPublicInputs → ProofWithPublicInputs → Bool
same_config first p = same_hash (hash_from p.public_inputs 4) (hash_from first.public_inputs 4)

check_roots_lem :
    (first p : ProofWithPublicInputs) (held : List ProofWithPublicInputs)
    → IsPrivTxProof first
    → IsPrivTxProof p
    → check_roots (first ∷ held) p ≡ (
        ensure (same_act first p) act_root_mismatch
        >> ensure (same_config first p) mainpool_config_root_mismatch)
unfolding check_roots act_root mainpool_config_root
check_roots_lem first p held f q =
    rw (hash_at-hash_from {E = BatchError} p.public_inputs 0 (omega (arith, q))) (
      rw (hash_at-hash_from {E = BatchError} first.public_inputs 0 (omega (arith, f))) (
        rw (hash_at-hash_from {E = BatchError} p.public_inputs 4 (omega (arith, q)))
          (rw (hash_at-hash_from {E = BatchError} first.public_inputs 4 (omega (arith, f))))))

-- A full batch takes no proof.
add_proof_full :
    (held : List ProofWithPublicInputs) (p : ProofWithPublicInputs)
    → length held ≡ priv_tx_batch_size
    → (add_proof (holding held) p).0 ≡ holding held
unfolding add_proof
add_proof_full held p e = rw e

not_full : (n m : ℕ) → n < m → (n == m) ≡ false
not_full n m l = ground arith

add_proof_step :
    (first p : ProofWithPublicInputs) (held : List ProofWithPublicInputs)
    → IsPrivTxProof first
    → IsPrivTxProof p
    → length (first ∷ held) < priv_tx_batch_size
    → (add_proof (holding (first ∷ held)) p).0
      ≡ holding (if same_roots first p then first ∷ held ++ p ∷ [] else first ∷ held)
unfolding add_proof
add_proof_step first p held f q l = rw (not_full (length (first ∷ held)) priv_tx_batch_size l) (
    rw (check_roots_lem first p held f q) (elim (Bool-cases (same_act first p)) [
      | inr other ↦ rw other
      | inl act ↦ rw act (elim (Bool-cases (same_config first p)) [
        | inr other ↦ rw other
        | inl config ↦ rw config
      ])
    ]))

add_all_full :
    (proofs held : List ProofWithPublicInputs)
    → length held ≡ priv_tx_batch_size
    → add_all proofs (holding held) ≡ holding held
unfolding add_all
add_all_full [] held e = refl
add_all_full (p ∷ proofs) held e =
    ap (add_all proofs) (add_proof_full held p e) ∙ add_all_full proofs held e

add_all_held :
    (proofs : List ProofWithPublicInputs) (first : ProofWithPublicInputs)
    (held : List ProofWithPublicInputs)
    → IsPrivTxProof first
    → AllPrivTxProofs proofs
    → length (first ∷ held) ≤ priv_tx_batch_size
    → add_all proofs (holding (first ∷ held))
      ≡ holding (take priv_tx_batch_size (first ∷ held ++ with_roots_of first proofs))
unfolding add_all
add_all_held [] first held f all l = ap holding (
    sym (take_all priv_tx_batch_size (first ∷ held) l)
    ∙ ap (λ xs. take priv_tx_batch_size (first ∷ xs)) (sym (append-nil held)))
add_all_held (p ∷ proofs) first held f all l =
    elim (dec_lt (length (first ∷ held)) priv_tx_batch_size) [
      | no full ↦
          add_all_full (p ∷ proofs) (first ∷ held) (omega arith)
          ∙ ap holding (
              sym (
                take-append_full priv_tx_batch_size (first ∷ held)
                  (with_roots_of first (p ∷ proofs)) (omega arith)))
      | yes room ↦
          ap (add_all proofs) (add_proof_step first p held f all.0 room)
          ∙ elim (Bool-cases (same_roots first p)) [
            | inl same ↦ rw same (
                add_all_held proofs first (held ++ p ∷ []) f all.1
                  (omega (arith, length-append held (p ∷ [])))
                ∙ ap (λ xs. holding (take priv_tx_batch_size (first ∷ xs)))
                    (append_assoc held (p ∷ []) (with_roots_of first proofs)))
            | inr other ↦ rw other (add_all_held proofs first held f all.1 l)
          ]
    ]

add_proof_first : (p : ProofWithPublicInputs) → (add_proof new p).0 ≡ holding (p ∷ [])
unfolding add_proof check_roots
add_proof_first p = refl

-- After any sequence of `add_proof` calls on a new batch, with proofs of 73 public inputs each and
-- whatever the calls return, the batch is not finalized and holds the first 64 of the first proof
-- and the later ones that share its two roots, in the order of the calls.
pub add_all-agreeing :
    (proofs : List ProofWithPublicInputs)
    → AllPrivTxProofs proofs
    → add_all proofs new ≡ holding (take priv_tx_batch_size (agreeing proofs))
unfolding add_all
add_all-agreeing [] all = refl
add_all-agreeing (first ∷ proofs) all =
    ap (add_all proofs) (add_proof_first first)
    ∙ add_all_held proofs first [] all.0 all.1 (omega arith)
