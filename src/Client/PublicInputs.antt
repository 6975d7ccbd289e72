-- ===== src/Client/PublicInputs.antt =====
-- doxa-client/src/lib.rs: `PIHelper`, and the output commitments of the three kinds of proof.
use doxa.Prelude.{
  ℕ, zero, suc, ◌+◌, ◌*◌, ◌≤◌, ◌≡◌, refl, ap, Bool, true, ◌&&◌, List, [], ◌∷◌, arith, length,
  get_or, take, drop, ◌==◌, leb, if◌then◌else◌, Result, ok, panic, ◌>>=◌, index, index-get_or,
}
use doxa.Hasher.{HashOutput}

-- `#[derive(PartialEq)]` of `HashOutput`.
abbrev pub same_hash : HashOutput → HashOutput → Bool
same_hash a b = (a.e0 == b.e0) && (a.e1 == b.e1) && (a.e2 == b.e2) && (a.e3 == b.e3)

pub same_hash_eq : (a b : HashOutput) → same_hash a b ≡ true → a ≡ b
same_hash_eq a b e =
    let p0 : a.e0 ≡ b.e0 = ground arith in
    let p1 : a.e1 ≡ b.e1 = ground arith in
    let p2 : a.e2 ≡ b.e2 = ground arith in
    let p3 : a.e3 ≡ b.e3 = ground arith in
    λ i. record { e0 = p0 i; e1 = p1 i; e2 = p2 i; e3 = p3 i }

pub same_hash_refl : (a : HashOutput) → same_hash a a ≡ true
same_hash_refl a = ground arith

-- plonky2's proof, by its public inputs.
pub record ProofWithPublicInputs : Type 0 where
  pub public_inputs : List ℕ

abbrev pub note_batch : ℕ
note_batch = 7

module _ {E : Type 0} where
  -- `HashOutput(pis[first..first + 4].try_into().unwrap())`
  unfoldable pub hash_at : List ℕ → ℕ → Result E HashOutput
  hash_at pis first = do
    e0 ← index pis first
    e1 ← index pis (first + 1)
    e2 ← index pis (first + 2)
    e3 ← index pis (first + 3)
    ok (record { e0 = e0; e1 = e1; e2 = e2; e3 = e3 })

  unfoldable pub act_root : ProofWithPublicInputs → Result E HashOutput
  unfolding hash_at
  act_root p = hash_at p.public_inputs 0

  unfoldable pub mainpool_config_root : ProofWithPublicInputs → Result E HashOutput
  unfolding hash_at
  mainpool_config_root p = hash_at p.public_inputs 4

  unfoldable pub accout_commitment : ProofWithPublicInputs → Result E HashOutput
  unfolding hash_at
  accout_commitment p = hash_at p.public_inputs 13

  -- `PrivTxProof::output_note_commitments`: PI[45..73], from a slot on.
  unfoldable pub note_commitments_from : ℕ → ℕ → ProofWithPublicInputs → Result E (List HashOutput)
  unfolding hash_at
  note_commitments_from zero slot p = ok []
  note_commitments_from (suc count) slot p = do
    c ← hash_at p.public_inputs (45 + slot * 4)
    rest ← note_commitments_from count (slot + 1) p
    ok (c ∷ rest)

  -- `PIHelper::output_commitments` of a private transaction.
  unfoldable pub priv_tx_output_commitments : ProofWithPublicInputs → Result E (List HashOutput)
  unfolding accout_commitment note_commitments_from
  priv_tx_output_commitments p = do
    account ← accout_commitment p
    notes ← note_commitments_from note_batch 0 p
    ok (account ∷ notes)

  -- `PIHelper::output_commitments` of a deposit and of a withdrawal.
  unfoldable pub bridge_output_commitments : ProofWithPublicInputs → Result E (List HashOutput)
  unfolding accout_commitment
  bridge_output_commitments p = do account ← accout_commitment p; ok (account ∷ [])

  unfoldable pub batch_common_pis : ProofWithPublicInputs → Result E (List ℕ)
  batch_common_pis p = if leb 8 (length p.public_inputs) then ok (take 8 p.public_inputs) else panic

  unfoldable pub batch_unique_pis : ProofWithPublicInputs → Result E (List ℕ)
  batch_unique_pis p = if leb 8 (length p.public_inputs) then ok (drop 8 p.public_inputs) else panic

-- The hash that starts at a position, where it is present.
abbrev pub hash_from : List ℕ → ℕ → HashOutput
hash_from pis first = record {
  e0 = get_or pis first 0;
  e1 = get_or pis (first + 1) 0;
  e2 = get_or pis (first + 2) 0;
  e3 = get_or pis (first + 3) 0;
}

module _ {E : Type 0} where
  pub hash_at-hash_from :
      (pis : List ℕ) (first : ℕ)
      → first + 4 ≤ length pis
      → hash_at {E = E} pis first ≡ ok (hash_from pis first)
  unfolding hash_at
  hash_at-hash_from pis first p = rw (index-get_or {E = E} pis first 0 (omega arith)) (
      rw (index-get_or {E = E} pis (first + 1) 0 (omega arith)) (
        rw (index-get_or {E = E} pis (first + 2) 0 (omega arith))
          (rw (index-get_or {E = E} pis (first + 3) 0 (omega arith)))))

  pub note_commitments_from_lem :
      (count slot : ℕ) (p : ProofWithPublicInputs)
      → 45 + (slot + count) * 4 ≤ length p.public_inputs
      → (cs : List HashOutput) × (note_commitments_from {E = E} count slot p ≡ ok cs)
        × (length cs ≡ count)
  unfolding note_commitments_from
  note_commitments_from_lem zero slot p l = ([], refl, refl)
  note_commitments_from_lem (suc count) slot p l =
      let (cs, runs, size) = note_commitments_from_lem count (slot + 1) p (omega arith) in
      (
        hash_from p.public_inputs (45 + slot * 4) ∷ cs,
        rw (hash_at-hash_from p.public_inputs (45 + slot * 4) (omega arith)) (rw runs),
        ap suc size,
      )

  -- Eight commitments from the 73 public inputs of a private transaction.
  pub priv_tx_output_commitments_lem :
      (p : ProofWithPublicInputs)
      → length p.public_inputs ≡ 73
      → (cs : List HashOutput) × (priv_tx_output_commitments {E = E} p ≡ ok cs) × (length cs ≡ 8)
  unfolding priv_tx_output_commitments accout_commitment
  priv_tx_output_commitments_lem p l =
      let (cs, runs, size) = note_commitments_from_lem note_batch 0 p (omega (arith, l)) in
      (
        hash_from p.public_inputs 13 ∷ cs,
        rw (hash_at-hash_from p.public_inputs 13 (omega (arith, l))) (rw runs),
        ap suc size,
      )
