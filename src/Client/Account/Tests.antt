-- ===== src/Client/Account/Tests.antt =====
-- Accounts, balances, addresses and notes at small values.
use doxa.Prelude.{
  ℕ, ◌+◌, ◌*◌, ◌/◌, ◌%◌, ◌^◌, ◌≡◌, ◌≢◌, ◌==◌, refl, ap, true, false, List, [], ◌∷◌, ◌++◌, Option,
  none, some, arith, length, Result, ok, inl,
}
use doxa.Samples.{toy_no_pad, toy_poseidon}
use doxa.Hasher.{HashOutput, zero_hash}
use doxa.Merkle
use doxa.Merkle.Layers.{tree_of}
use doxa.Merkle.Membership.{MerkleProof, verify}
use doxa.StateSync.Contract.{Bytes}
use doxa.Client.Assets
use doxa.Client.Assets.{
  AccountStateTree, new, insert_all, insert_or_update_asset, amount_for, merkle_proof_at,
  leaf_commitment, new_from_asset_map,
}
use doxa.Client.Assets.Entries.{entry}
use doxa.Client.Assets.Mirror.{Holds, appended, Holds-appended}
use doxa.Client.Assets.Run.{
  AssetCall, insert_call, update_call, replay, run, first_entry, first_tree, first_tree-Holds,
  run-replay, merkle_proof_at-amount_for, upsert_entry, upsert_result, insert_or_update_asset-Holds,
}
use doxa.Client.Assets.Restore.{Saved, new_from_asset_map-amount_for, new_from_asset_map-Holds}
use doxa.Client.Account.{
  CompressedPublicKey, StandardAccount, commitment_words, is_fresh, default_pk,
}
use doxa.Client.Account.Commitments.{SameState, commitment_words-SameState, is_fresh-Holds}
use doxa.Client.Address.{
  AccountAddress, AddressError, to_bytes, from_bytes, to_hex, from_hex, address_encodings,
}
use doxa.Client.Notes.{
  StandardNote, DepositNote, note_words, deposit_note_words, read_note, read_deposit_note,
  read-note_words,
}

-- An update of an asset that is not held, and a second insertion.
abbrev calls : List AssetCall
calls = insert_call 5 7 ∷ update_call 6 1 ∷ insert_call 8 2 ∷ insert_call 5 9 ∷ update_call 5 4 ∷ []

run-replay_example :
    (s : AccountStateTree) × (new toy_no_pad ≡ ok s)
    × Holds toy_no_pad (replay calls first_entry) (run toy_no_pad calls s)
run-replay_example = run-replay toy_no_pad calls

replay_runs : replay calls first_entry ≡ entry 0 0 ∷ entry 5 4 ∷ entry 8 2 ∷ []
unfolding replay
replay_runs = refl

insert_or_update_asset-Holds_example :
    Holds toy_no_pad
      (upsert_entry 5 7 first_entry)
      (insert_or_update_asset toy_no_pad 5 7 (first_tree toy_no_pad)).0
    × ((insert_or_update_asset toy_no_pad 5 7 (first_tree toy_no_pad)).1
        ≡ upsert_result 5 first_entry)
insert_or_update_asset-Holds_example =
    insert_or_update_asset-Holds toy_no_pad first_entry (first_tree toy_no_pad) 5 7
      (first_tree-Holds toy_no_pad)

abbrev second_tree : AccountStateTree
second_tree = appended toy_no_pad first_entry (first_tree toy_no_pad).assets 5 7

second_tree-Holds : Holds toy_no_pad (first_entry ++ entry 5 7 ∷ []) second_tree
second_tree-Holds =
    Holds-appended toy_no_pad first_entry (first_tree toy_no_pad) 5 7 (first_tree-Holds toy_no_pad)
      refl (omega arith)

amount_of_5 : amount_for second_tree 5 ≡ some (1, 7)
unfolding amount_for
amount_of_5 = refl

merkle_proof_at-amount_for_example :
    (p : MerkleProof HashOutput) × (merkle_proof_at second_tree 1 ≡ ok p)
    × (verify p ≡ true)
    × (p.leaf ≡ leaf_commitment toy_no_pad (entry 5 7))
    × (Assets.root second_tree ≡ ok p.root)
merkle_proof_at-amount_for_example =
    merkle_proof_at-amount_for toy_no_pad (first_entry ++ entry 5 7 ∷ []) second_tree 5 1 7
      second_tree-Holds amount_of_5

abbrev saved : List Saved
saved = (8, (1, 9)) ∷ (5, (0, 7)) ∷ []

-- The tree that is restored from two assets.
abbrev restored : AccountStateTree
unfolding insert_all
restored = (insert_all toy_no_pad ((5, (0, 7)) ∷ (8, (1, 9)) ∷ []) (first_tree toy_no_pad)).0

restores : new_from_asset_map toy_no_pad saved ≡ ok restored
unfolding new_from_asset_map Merkle.insert tree_of
restores = refl

new_from_asset_map-amount_for_example : ((8 == 0) ≡ false) × (amount_for restored 8 ≡ some (2, 9))
new_from_asset_map-amount_for_example =
    new_from_asset_map-amount_for toy_no_pad saved restored restores (8, (1, 9)) (inl refl)

new_from_asset_map-Holds_example : new_from_asset_map toy_no_pad second_tree.assets ≢ ok second_tree
new_from_asset_map-Holds_example =
    new_from_asset_map-Holds toy_no_pad (first_entry ++ entry 5 7 ∷ []) second_tree second_tree
      second_tree-Holds

abbrev account : Option CompressedPublicKey → StandardAccount
account spend = record {
  private_identifier = record { p0 = 2; p1 = 3 };
  subpool_id = 4;
  nonce = 1;
  spend_pk = spend;
  consume_auth = record { config = false; pk = none };
  ast = second_tree;
}

abbrev account_words : List ℕ
unfolding commitment_words Merkle.root tree_of
account_words = elim (commitment_words toy_no_pad (account none)) [ ok ws ↦ ws | _ ↦ [] ]

words_of : commitment_words toy_no_pad (account none) ≡ ok account_words
unfolding commitment_words account_words Merkle.root tree_of
words_of = refl

words_of_default : commitment_words toy_no_pad (account (some default_pk)) ≡ ok account_words
unfolding commitment_words account_words Merkle.root tree_of
words_of_default = refl

-- An account without a spend key and one with the placeholder have the same commitment.
commitment_words-SameState_example : SameState toy_no_pad (account none) (account (some default_pk))
commitment_words-SameState_example =
    commitment_words-SameState toy_no_pad (account none) (account (some default_pk)) account_words
      words_of words_of_default

is_fresh-Holds_example :
    is_fresh (record (account none) { nonce = 0; ast = first_tree toy_no_pad }) ≡ false
is_fresh-Holds_example =
    is_fresh-Holds toy_no_pad first_entry
      (record (account none) { nonce = 0; ast = first_tree toy_no_pad })
      (first_tree-Holds toy_no_pad)

-- Two digits for a byte, as numbers.
abbrev digits : Bytes → List ℕ
digits [] = []
digits (b ∷ bytes) = b / 16 ∷ b % 16 ∷ digits bytes

abbrev undigits : List ℕ → Bytes
undigits [] = []
undigits (a ∷ []) = []
undigits (a ∷ b ∷ ds) = (a * 16 + b) ∷ undigits ds

length-digits : (bytes : Bytes) → length (digits bytes) ≡ 2 * length bytes
length-digits [] = omega arith
length-digits (b ∷ bytes) = omega (arith, length-digits bytes)

undigits-digits : (bytes : Bytes) → undigits (digits bytes) ≡ bytes
undigits-digits [] = refl
undigits-digits (b ∷ bytes) =
    let same : b / 16 * 16 + b % 16 ≡ b = omega arith in λ i. same i ∷ undigits-digits bytes i

abbrev decode_digits : List ℕ → Result AddressError Bytes
decode_digits ds = ok (undigits ds)

abbrev address : AccountAddress
address = record { subpool_id = 4; public_id = record { e0 = 1; e1 = 258; e2 = 3; e3 = 4 } }

address_encodings_example :
    (from_bytes (to_bytes address) ≡ ok address)
    × (from_hex digits decode_digits (to_hex digits decode_digits address) ≡ ok address)
address_encodings_example =
    address_encodings digits decode_digits length-digits (λ bytes. ap ok (undigits-digits bytes))
      address
      (record {
        subpool = omega arith;
        id = record { c0 = omega arith; c1 = omega arith; c2 = omega arith; c3 = omega arith };
      })

abbrev note : StandardNote
note = record {
  identifier = record { i0 = 1; i1 = 2 };
  asset_id = 5;
  amt = 2 ^ 200 + 3;
  recipient = address;
  sender = record { subpool_id = 9; public_id = zero_hash };
  memo = 7 ∷ [];
}

abbrev deposit : DepositNote
deposit = record {
  identifier = record { i0 = 1; i1 = 2 };
  recipient = address;
  amount = 2 ^ 255;
  asset_id = 5;
}

read-note_words_example :
    (length (note_words note) ≡ 21)
    × (read_note note.memo (note_words note) ≡ note)
    × (length (deposit_note_words deposit) ≡ 16)
    × (read_deposit_note (deposit_note_words deposit) ≡ deposit)
read-note_words_example = read-note_words note deposit (omega arith) (omega arith)
