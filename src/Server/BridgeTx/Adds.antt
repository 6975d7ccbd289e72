-- ===== src/Server/BridgeTx/Adds.antt =====
-- Which proofs the halves of a bridge batch hold after a sequence of `add_proof` calls.
use doxa.Prelude.{
  ◌≤◌, ◌<◌, ◌≡◌, sym, ap, ◌∙◌, Bool, true, false, ◌&&◌, List, [], ◌∷◌, ◌++◌, none, some, arith,
  length, length-append, take, take-append_full, take_all, ◌==◌, if◌then◌else◌, ensure, Bool-cases,
  inl, inr, append_assoc, append-nil, ◌>>◌,
}
use doxa.Client.PublicInputs.{hash_from, hash_at-hash_from, act_root, mainpool_config_root}
use doxa.Server.Batch.{BatchError, act_root_mismatch, mainpool_config_root_mismatch}
use doxa.Server.PrivTx.Adds.{same_roots, same_act, same_config}
use doxa.Server.BridgeTx.{
  BridgeTxProof, withdraw_tx_proof, deposit_tx_proof, proof_of, BridgeTxBatch, new, half, is_full,
  check_common, set_common, push, add_checked, add_proof,
}

-- Enough public inputs for the two roots.
abbrev pub HasRoots : BridgeTxProof → Type 0
HasRoots p = 8 ≤ length (proof_of p).public_inputs

abbrev pub AllHaveRoots : List BridgeTxProof → Type 0
AllHaveRoots [] = Unit {0}
AllHaveRoots (p ∷ proofs) = HasRoots p × AllHaveRoots proofs

abbrev pub shares_roots : BridgeTxProof → BridgeTxProof → Bool
shares_roots first p = same_roots (proof_of first) (proof_of p)

abbrev pub agreeing_after : BridgeTxProof → List BridgeTxProof → List BridgeTxProof
agreeing_after first [] = []
agreeing_after first (p ∷ proofs) =
    let rest = agreeing_after first proofs in if shares_roots first p then p ∷ rest else rest

-- The first proof, and those after it that share its roots.
abbrev pub agreeing : List BridgeTxProof → List BridgeTxProof
agreeing [] = []
agreeing (first ∷ proofs) = first ∷ agreeing_after first proofs

abbrev pub withdraws : List BridgeTxProof → List BridgeTxProof
withdraws [] = []
withdraws (withdraw_tx_proof p ∷ proofs) = withdraw_tx_proof p ∷ withdraws proofs
withdraws (deposit_tx_proof p ∷ proofs) = withdraws proofs

abbrev pub deposits : List BridgeTxProof → List BridgeTxProof
deposits [] = []
deposits (withdraw_tx_proof p ∷ proofs) = deposits proofs
deposits (deposit_tx_proof p ∷ proofs) = deposit_tx_proof p ∷ deposits proofs

-- A sequence of calls, whatever each returns.
unfoldable pub add_all : List BridgeTxProof → BridgeTxBatch → BridgeTxBatch
add_all [] b = b
add_all (p ∷ proofs) b = add_all proofs (add_proof b p).0

abbrev pub holding : BridgeTxProof → List BridgeTxProof → List BridgeTxProof → BridgeTxBatch
holding first ws ds = record {
  withdraw_half = ws;
  deposit_half = ds;
  act = some (hash_from (proof_of first).public_inputs 0);
  config = some (hash_from (proof_of first).public_inputs 4);
  batch_root = none;
  finalized_proofs = [];
}

abbrev room : List BridgeTxProof → BridgeTxProof → List BridgeTxProof
room held p = if length held == half then held else held ++ p ∷ []

abbrev pushed :
    BridgeTxProof → List BridgeTxProof → List BridgeTxProof → BridgeTxProof → BridgeTxBatch
pushed first ws ds (withdraw_tx_proof p) = holding first (room ws (withdraw_tx_proof p)) ds
pushed first ws ds (deposit_tx_proof p) = holding first ws (room ds (deposit_tx_proof p))

push-pushed :
    (first p : BridgeTxProof) (ws ds : List BridgeTxProof)
    → (push (holding first ws ds) p).0 ≡ pushed first ws ds p
unfolding push
push-pushed first (withdraw_tx_proof p) ws ds = elim (Bool-cases (length ws == half)) [
  | inl full ↦ rw full
  | inr other ↦ rw other
]
push-pushed first (deposit_tx_proof p) ws ds = elim (Bool-cases (length ds == half)) [
  | inl full ↦ rw full
  | inr other ↦ rw other
]

-- A full batch would push nothing.
pushed_full :
    (first p : BridgeTxProof) (ws ds : List BridgeTxProof)
    → is_full (holding first ws ds) ≡ true
    → holding first ws ds ≡ pushed first ws ds p
pushed_full first (withdraw_tx_proof p) ws ds e = elim (Bool-cases (length ws == half)) [
  | inl full ↦ rw full
  | inr other ↦ let none_full = ap (λ b. b && (length ds == half)) other in absurd cc
]
pushed_full first (deposit_tx_proof p) ws ds e = elim (Bool-cases (length ds == half)) [
  | inl full ↦ rw full
  | inr other ↦ elim (Bool-cases (length ws == half)) [
    | inl w ↦
        let none_full = ap (λ b. (length ws == half) && b) other ∙ ap (λ b. b && false) w in
        absurd cc
    | inr w ↦ let none_full = ap (λ b. b && (length ds == half)) w in absurd cc
  ]
]

check_common_lem :
    (first p : BridgeTxProof) (ws ds : List BridgeTxProof)
    → HasRoots p
    → check_common (holding first ws ds) p ≡ (
        ensure (same_act (proof_of first) (proof_of p)) act_root_mismatch
        >> ensure (same_config (proof_of first) (proof_of p)) mainpool_config_root_mismatch)
unfolding check_common act_root mainpool_config_root
check_common_lem first p ws ds l =
    rw (hash_at-hash_from {E = BatchError} (proof_of p).public_inputs 0 (omega (arith, l)))
      (rw (hash_at-hash_from {E = BatchError} (proof_of p).public_inputs 4 (omega (arith, l))))

add_proof_step :
    (first p : BridgeTxProof) (ws ds : List BridgeTxProof)
    → HasRoots p
    → (add_proof (holding first ws ds) p).0
      ≡ (if shares_roots first p then pushed first ws ds p else holding first ws ds)
unfolding add_proof add_checked
add_proof_step first p ws ds l = elim (Bool-cases (is_full (holding first ws ds))) [
  | inl full ↦ rw full (elim (Bool-cases (shares_roots first p)) [
    | inl same ↦ rw same (pushed_full first p ws ds full)
    | inr other ↦ rw other
  ])
  | inr some_room ↦ rw some_room (
      rw (check_common_lem first p ws ds l)
        (elim (Bool-cases (same_act (proof_of first) (proof_of p))) [
          | inr other ↦ rw other
          | inl act ↦ rw act (elim (Bool-cases (same_config (proof_of first) (proof_of p))) [
            | inr other ↦ rw other
            | inl config ↦ rw config (push-pushed first p ws ds)
          ])
        ]))
]

take-room :
    (held rest : List BridgeTxProof) (p : BridgeTxProof)
    → length held ≤ half
    → take half (room held p ++ rest) ≡ take half (held ++ p ∷ rest)
take-room held rest p l = elim (Bool-cases (length held == half)) [
  | inl full ↦
      let e : length held ≡ half = ground arith in
      rw full (take-append_full half held rest e ∙ sym (take-append_full half held (p ∷ rest) e))
  | inr other ↦ rw other (ap (take half) (append_assoc held (p ∷ []) rest))
]

length-room :
    (held : List BridgeTxProof) (p : BridgeTxProof)
    → length held ≤ half
    → length (room held p) ≤ half
length-room held p l = elim (Bool-cases (length held == half)) [
  | inl full ↦ rw full l
  | inr other ↦
      let below : length held < half = ground arith in
      rw other (omega (arith, below, length-append held (p ∷ [])))
]

add_all_held :
    (proofs : List BridgeTxProof) (first : BridgeTxProof) (ws ds : List BridgeTxProof)
    → AllHaveRoots proofs
    → length ws ≤ half
    → length ds ≤ half
    → add_all proofs (holding first ws ds)
      ≡ holding first
          (take half (ws ++ withdraws (agreeing_after first proofs)))
          (take half (ds ++ deposits (agreeing_after first proofs)))
unfolding add_all
add_all_held [] first ws ds all lw ld = λ i.
    holding first (sym (ap (take half) (append-nil ws) ∙ take_all half ws lw) i)
      (sym (ap (take half) (append-nil ds) ∙ take_all half ds ld) i)
add_all_held (withdraw_tx_proof p ∷ proofs) first ws ds all lw ld =
    ap (add_all proofs) (add_proof_step first (withdraw_tx_proof p) ws ds all.0)
    ∙ elim (Bool-cases (shares_roots first (withdraw_tx_proof p))) [
      | inr other ↦ rw other (add_all_held proofs first ws ds all.1 lw ld)
      | inl same ↦ rw same (
          add_all_held proofs first (room ws (withdraw_tx_proof p)) ds all.1
            (length-room ws (withdraw_tx_proof p) lw) ld
          ∙ ap (λ xs. holding first xs (take half (ds ++ deposits (agreeing_after first proofs))))
              (take-room ws (withdraws (agreeing_after first proofs)) (withdraw_tx_proof p) lw))
    ]
add_all_held (deposit_tx_proof p ∷ proofs) first ws ds all lw ld =
    ap (add_all proofs) (add_proof_step first (deposit_tx_proof p) ws ds all.0)
    ∙ elim (Bool-cases (shares_roots first (deposit_tx_proof p))) [
      | inr other ↦ rw other (add_all_held proofs first ws ds all.1 lw ld)
      | inl same ↦ rw same (
          add_all_held proofs first ws (room ds (deposit_tx_proof p)) all.1 lw
            (length-room ds (deposit_tx_proof p) ld)
          ∙ ap (holding first (take half (ws ++ withdraws (agreeing_after first proofs))))
              (take-room ds (deposits (agreeing_after first proofs)) (deposit_tx_proof p) ld))
    ]

add_proof_first :
    (p : BridgeTxProof)
    → HasRoots p
    → (add_proof new p).0 ≡ holding p (withdraws (p ∷ [])) (deposits (p ∷ []))
unfolding add_proof add_checked set_common act_root mainpool_config_root push
add_proof_first (withdraw_tx_proof p) l =
    rw (hash_at-hash_from {E = BatchError} p.public_inputs 0 (omega (arith, l)))
      (rw (hash_at-hash_from {E = BatchError} p.public_inputs 4 (omega (arith, l))))
add_proof_first (deposit_tx_proof p) l =
    rw (hash_at-hash_from {E = BatchError} p.public_inputs 0 (omega (arith, l)))
      (rw (hash_at-hash_from {E = BatchError} p.public_inputs 4 (omega (arith, l))))

-- After any sequence of `add_proof` calls on a new batch that starts with a given proof, whatever
-- the calls return and with at least 8 public inputs in each proof, the halves hold the first 256
-- withdrawals and the first 256 deposits among that proof and the later ones that share its roots,
-- in the order of the calls, and the common roots are those of that proof.
pub add_all-halves :
    (first : BridgeTxProof) (proofs : List BridgeTxProof)
    → AllHaveRoots (first ∷ proofs)
    → add_all (first ∷ proofs) new
      ≡ holding first
          (take half (withdraws (agreeing (first ∷ proofs))))
          (take half (deposits (agreeing (first ∷ proofs))))
unfolding add_all
add_all-halves (withdraw_tx_proof p) proofs all =
    ap (add_all proofs) (add_proof_first (withdraw_tx_proof p) all.0)
    ∙ add_all_held proofs (withdraw_tx_proof p) (withdraw_tx_proof p ∷ []) [] all.1 (omega arith)
        (omega arith)
add_all-halves (deposit_tx_proof p) proofs all =
    ap (add_all proofs) (add_proof_first (deposit_tx_proof p) all.0)
    ∙ add_all_held proofs (deposit_tx_proof p) [] (deposit_tx_proof p ∷ []) all.1 (omega arith)
        (omega arith)
