-- ===== src/StateSync/State/Status/Settled.antt =====
-- What a settled batch changes in the answers to the queries.
use doxa.Prelude.{
  ◌≡◌, refl, sym, ap, ◌∙◌, Bool, true, false, not, ◌&&◌, ◌||◌, List, [], ◌∷◌, Option, none,
  if◌then◌else◌, Map, get, remove, contains_key, keys_where, member, put_key, passes, Bool-cases,
  inl, inr, get-remove_self, get-remove_ne, member-keys_where, member-put_key_ne, is_some,
}
use doxa.Hasher.{HashOutput}
use doxa.Client.Keys.{hash_key, bytes_key, bytes_eq}
use doxa.Client.PublicInputs.{same_hash, same_hash_eq}
use doxa.StateSync.Contract.{Bytes}
use doxa.StateSync.State.{
  BatchIndex, StateSyncState, transaction, bridge_tx, move_all, confirm_nullifiers,
  confirm_pending_batch, move_batch,
}
use doxa.StateSync.State.Confirm.{settle}
use doxa.StateSync.State.Status.{
  BatchStatus, get_nullifier_status, nullifier_confirmed, batch_status, batch_confirmed,
  batch_pending, batch_not_found, get_batch_status,
}

either_none : {V : Type 0} (b : Bool) (o : Option V) → o ≡ none → (if b then none else o) ≡ none
either_none true o e = refl
either_none false o e = e

move_all-get :
    (ns : List HashOutput) (waiting : Map HashOutput Bytes) (done : List HashOutput)
    (n : HashOutput)
    → get (move_all ns (waiting, done)).0 n ≡ (if member n ns then none else get waiting n)
move_all-get [] waiting done n = refl
move_all-get (x ∷ ns) waiting done n = elim (Bool-cases (same_hash n x)) [
  | inl same ↦ rw same (
      move_all-get ns (remove waiting x) (put_key x done) n
      ∙ either_none (member n ns) (get (remove waiting x) n)
          (get-remove_self waiting x n (same_hash_eq n x same)))
  | inr other ↦ rw other (
      move_all-get ns (remove waiting x) (put_key x done) n
      ∙ ap (λ rest. if member n ns then none else rest) (get-remove_ne waiting x n other))
]

either_true : (b c : Bool) → c ≡ true → (b || c) ≡ true
either_true true c e = refl
either_true false c e = e

move_all-member :
    (ns : List HashOutput) (waiting : Map HashOutput Bytes) (done : List HashOutput)
    (n : HashOutput)
    → member n (move_all ns (waiting, done)).1 ≡ (member n ns || member n done)
move_all-member [] waiting done n = refl
move_all-member (x ∷ ns) waiting done n = elim (Bool-cases (same_hash n x)) [
  | inl same ↦ rw same (
      move_all-member ns (remove waiting x) (put_key x done) n
      ∙ either_true (member n ns) (member n (put_key x done)) (rw same))
  | inr other ↦ rw other (
      move_all-member ns (remove waiting x) (put_key x done) n
      ∙ ap (λ c. member n ns || c) (member-put_key_ne x n done other))
]

-- Of the pending nullifiers, those of the batch.
abbrev pub is_nullifier_of : Bytes → StateSyncState → HashOutput → Bool
is_nullifier_of pi s n = passes (λ pic. bytes_eq pic pi) (get s.pending_nullifiers n)

-- Settling a batch confirms the pending nullifiers of that batch, and leaves the status of every
-- other nullifier as it was.
pub settle-get_nullifier_status :
    (pi : Bytes) (batch_root new_tree_root : HashOutput) (s : StateSyncState) (n : HashOutput)
    → get_nullifier_status (settle pi batch_root new_tree_root s) n
      ≡ (if is_nullifier_of pi s n then nullifier_confirmed else get_nullifier_status s n)
unfolding get_nullifier_status settle confirm_nullifiers
settle-get_nullifier_status pi batch_root new_tree_root s n =
    let ours = keys_where (λ pic. bytes_eq pic pi) s.pending_nullifiers in
    let found = member-keys_where (λ pic. bytes_eq pic pi) s.pending_nullifiers n in
    rw (move_all-member ours s.pending_nullifiers s.confirmed_nullifiers n) (
      rw (move_all-get ours s.pending_nullifiers s.confirmed_nullifiers n) (
        rw found (elim (Bool-cases (is_nullifier_of pi s n)) [
          | inl confirms ↦ rw confirms
          | inr others ↦ rw others
        ])))

batch_status_moved :
    (pi q : Bytes) (waiting : Map Bytes Bytes) (done : List Bytes)
    → batch_status (put_key pi done) (remove waiting pi) q
      ≡ (if bytes_eq q pi then batch_confirmed else batch_status done waiting q)
batch_status_moved pi q waiting done = elim (Bool-cases (bytes_eq q pi)) [
  | inl same ↦ rw same
  | inr other ↦
      (λ i.
        if member-put_key_ne pi q done other i
        then batch_confirmed
        else (if is_some (get-remove_ne waiting pi q other i)
            then batch_pending
            else batch_not_found))
      ∙ ap (λ b. if b then batch_confirmed else batch_status done waiting q) (sym other)
]

abbrev moved : Bool → Bool → Bytes → BatchIndex → BatchIndex → BatchIndex × BatchIndex
moved is_tx is_bridge pi tx bridge =
    if is_tx
    then (move_batch pi tx, bridge)
    else (if is_bridge then (tx, move_batch pi bridge) else (tx, bridge))

abbrev status_in : BatchIndex → Bytes → BatchStatus
status_in batches q = batch_status batches.1 batches.0 q

moved_status :
    (is_tx is_bridge : Bool) (pi q : Bytes) (tx bridge : BatchIndex)
    → (status_in (moved is_tx is_bridge pi tx bridge).0 q
        ≡ (if is_tx && bytes_eq q pi then batch_confirmed else status_in tx q))
      × (status_in (moved is_tx is_bridge pi tx bridge).1 q ≡ (
          if not is_tx && (is_bridge && bytes_eq q pi)
          then batch_confirmed
          else status_in bridge q))
moved_status true is_bridge pi q tx bridge = (batch_status_moved pi q tx.0 tx.1, refl)
moved_status false true pi q tx bridge = (refl, batch_status_moved pi q bridge.0 bridge.1)
moved_status false false pi q tx bridge = (refl, refl)

-- Settling a batch that is pending as a transaction batch confirms it as one; settling one that is
-- not, and is pending as a bridge batch, confirms it as one. The status of every other batch, of
-- either kind, is as it was.
pub settle-get_batch_status :
    (pi : Bytes) (batch_root new_tree_root : HashOutput) (s : StateSyncState) (q : Bytes)
    → (get_batch_status (settle pi batch_root new_tree_root s) q transaction ≡ (
        if contains_key s.pending_tx_batches pi && bytes_eq q pi
        then batch_confirmed
        else get_batch_status s q transaction))
      × (get_batch_status (settle pi batch_root new_tree_root s) q bridge_tx ≡ (
          if not (contains_key s.pending_tx_batches pi)
            && (contains_key s.pending_bridge_tx_batches pi && bytes_eq q pi)
          then batch_confirmed
          else get_batch_status s q bridge_tx))
unfolding get_batch_status settle confirm_pending_batch
settle-get_batch_status pi batch_root new_tree_root s q =
    moved_status (contains_key s.pending_tx_batches pi)
      (contains_key s.pending_bridge_tx_batches pi) pi q
      (s.pending_tx_batches, s.confirmed_tx_batches)
      (s.pending_bridge_tx_batches, s.confirmed_bridge_tx_batches)
