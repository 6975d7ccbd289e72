-- ===== src/StateSync/Preimages/Confirmed.antt =====
-- From a batch's pre-image to proofs of its commitments.
use doxa.Prelude.{
  ℕ, zero, suc, ◌^◌, ◌<◌, ◌≡◌, refl, ap, ◌∙◌, List, [], ◌∷◌, length, length-replicate, get_or,
  arith, none, ok, get,
}
use doxa.Hasher.{MerkleHash, HashOutput, zero_hash}
use doxa.Client.Keys.{hash_key, bytes_key}
use doxa.Merkle.Layers.{tree_of}
use doxa.StateSync.Contract.{Bytes}
use doxa.StateSync.State.{StateSyncState, leaves_or_default}
use doxa.StateSync.State.Confirm.{confirm_batch}
use doxa.StateSync.State.Confirm.Settled.{confirmed_state, confirm_batch-confirmed_state}
use doxa.StateSync.State.Status.Confirmed.{HasProofs, confirmed_state-get_commitment_status}
use doxa.StateSync.Preimages.{apply_tx_preimage}
use doxa.StateSync.Preimages.Recorded.Pending.{pending_leaves, Recorded}
use doxa.StateSync.Preimages.Recorded.{IsTxPreimage, apply_tx_preimage-Recorded}

get_or_default :
    (xs : List HashOutput) (i : ℕ) (d e : HashOutput)
    → i < length xs
    → get_or xs i d ≡ get_or xs i e
get_or_default [] i d e l = elim l [ ]
get_or_default (x ∷ xs) zero d e l = refl
get_or_default (x ∷ xs) (suc i) d e l = get_or_default xs i d e (omega arith)

Recorded-start :
    (pi : Bytes) (c : ℕ → HashOutput) (s : StateSyncState)
    → get s.pending_batch_leaves pi ≡ none
    → Recorded s.state_tree pi c 0 s
Recorded-start pi c s e = record {
  same_tree = refl;
  present = λ p. elim p [ ];
  width = ap (λ o. length (leaves_or_default o)) e ∙ length-replicate 512 zero_hash;
  leaves = λ i p. elim p [ ];
  located = λ i p. elim p [ ];
}

module _ ⦃h : MerkleHash HashOutput⦄ where
  -- Let the state tree be the tree of depth n > 0 of fewer than 2^n leaves, and let nothing be
  -- pending for a commitment to public inputs. Then the pre-image of a transaction batch, if it is
  -- long enough and the hashes and flags in it are readable, is applied without an error, the
  -- batch is then confirmed without an error, and afterwards each of its 512 commitments has the
  -- status confirmed, with a proof of it under the root of one and the same subtree of leaves and
  -- a proof of the batch's root under the root of the state tree, both accepted by `verify`.
  pub apply_tx_preimage-confirm_batch :
      (n : ℕ) (xs : List HashOutput) (preimage pi : Bytes) (c : ℕ → HashOutput)
      (batch_root new_tree_root : HashOutput) (s : StateSyncState)
      → 0 < n
      → s.state_tree ≡ tree_of n xs
      → length xs < 2 ^ n
      → get s.pending_batch_leaves pi ≡ none
      → IsTxPreimage preimage c
      → (s1 : StateSyncState) × (s2 : StateSyncState) × (leaves : List HashOutput)
        × (apply_tx_preimage preimage pi s ≡ (s1, ok tt))
        × (confirm_batch pi batch_root new_tree_root s1 ≡ (s2, ok tt))
        × ((i : ℕ) → i < 512 → HasProofs leaves batch_root (c i) s2)
  apply_tx_preimage-confirm_batch n xs preimage pi c batch_root new_tree_root s pos e l fresh p =
      let (s1, applies, r) =
        apply_tx_preimage-Recorded s.state_tree preimage pi c p s (Recorded-start pi c s fresh) in
      let leaves = pending_leaves s1 pi in
      (
        s1,
        confirmed_state n xs leaves pi batch_root new_tree_root s1,
        leaves,
        applies,
        confirm_batch-confirmed_state n xs leaves pi batch_root new_tree_root s1 pos
            (r.same_tree ∙ e) l (r.present (omega arith)) r.width,
        λ i m.
            let (j, inside, at_i, holds) = r.located i m in
            confirmed_state-get_commitment_status n xs leaves pi batch_root new_tree_root (c i) j _
              s1 pos l r.width inside at_i
              (get_or_default leaves j h.zero_digest zero_hash (omega (arith, inside, r.width))
                ∙ r.leaves j inside
                ∙ holds),
      )
