-- ===== src/Client/Notes.antt =====
-- doxa-client/src/note.rs: notes, their commitments and nullifiers.
use doxa.Prelude.{
  ℕ, ◌+◌, ◌^◌, ◌<◌, ◌≡◌, refl, List, [], ◌∷◌, ◌++◌, length, ltb, take, drop, get_or, Result, ok,
  ◌>>◌, ensure,
}
use doxa.Hasher.{HashOutput}
use doxa.StateSync.Contract.{goldilocks_prime}
use doxa.Client.Amounts.{amount_limbs, from_limbs32, from_limbs32-amount_limbs}
use doxa.Client.Assets.{AssetId}
use doxa.Client.Account.{hash_words}
use doxa.Client.Address.{AccountAddress}

pub record NoteIdentifier : Type 0 where
  pub i0 : ℕ
  pub i1 : ℕ

-- The memo is bytes.
pub record StandardNote : Type 0 where
  pub identifier : NoteIdentifier
  pub asset_id : AssetId
  pub amt : ℕ
  pub recipient : AccountAddress
  pub sender : AccountAddress
  pub memo : List ℕ

pub record DepositNote : Type 0 where
  pub identifier : NoteIdentifier
  pub recipient : AccountAddress
  pub amount : ℕ
  pub asset_id : AssetId

abbrev pub address_words : AccountAddress → List ℕ
address_words a = a.subpool_id ∷ hash_words a.public_id

-- What is hashed for the commitment of a note.
unfoldable pub note_words : StandardNote → List ℕ
unfolding amount_limbs
note_words n =
    n.identifier.i0
    ∷ n.identifier.i1
    ∷ (amount_limbs n.amt ++ n.asset_id ∷ (address_words n.recipient ++ address_words n.sender))

-- What is hashed for the commitment of a deposit note.
unfoldable pub deposit_note_words : DepositNote → List ℕ
unfolding amount_limbs
deposit_note_words n =
    n.identifier.i0
    ∷ n.identifier.i1
    ∷ (address_words n.recipient ++ (amount_limbs n.amount ++ n.asset_id ∷ []))

pub data NoteError : Type 0 where
  position_exceeds_field : ℕ → NoteError

module _ (hash_no_pad : List ℕ → HashOutput) where
  unfoldable pub commitment : StandardNote → HashOutput
  unfolding note_words
  commitment n = hash_no_pad (note_words n)

  unfoldable pub deposit_commitment : DepositNote → HashOutput
  unfolding deposit_note_words
  deposit_commitment n = hash_no_pad (deposit_note_words n)

  unfoldable pub nullifier : StandardNote → ℕ → HashOutput → Result NoteError HashOutput
  unfolding commitment
  nullifier n position nk = do
    ensure (ltb position goldilocks_prime) (position_exceeds_field position)
    ok (hash_no_pad (hash_words (commitment n) ++ position ∷ hash_words nk))

-- A note from the words of its commitment, and its memo.
abbrev address_from : ℕ → List ℕ → AccountAddress
address_from i ws = record {
  subpool_id = get_or ws i 0;
  public_id = record {
    e0 = get_or ws (i + 1) 0;
    e1 = get_or ws (i + 2) 0;
    e2 = get_or ws (i + 3) 0;
    e3 = get_or ws (i + 4) 0;
  };
}

abbrev pub read_note : List ℕ → List ℕ → StandardNote
read_note memo ws = record {
  identifier = record { i0 = get_or ws 0 0; i1 = get_or ws 1 0 };
  asset_id = get_or ws 10 0;
  amt = from_limbs32 (take 8 (drop 2 ws));
  recipient = address_from 11 ws;
  sender = address_from 16 ws;
  memo = memo;
}

abbrev pub read_deposit_note : List ℕ → DepositNote
read_deposit_note ws = record {
  identifier = record { i0 = get_or ws 0 0; i1 = get_or ws 1 0 };
  recipient = address_from 2 ws;
  amount = from_limbs32 (take 8 (drop 7 ws));
  asset_id = get_or ws 15 0;
}

-- The 21 words that are hashed for a note, and the 16 for a deposit note, give back all of the note
-- but its memo: two notes that differ in anything else, with amounts below 2^256, hash other words.
pub read-note_words :
    (n : StandardNote) (d : DepositNote)
    → n.amt < 2 ^ 256
    → d.amount < 2 ^ 256
    → (length (note_words n) ≡ 21)
      × (read_note n.memo (note_words n) ≡ n)
      × (length (deposit_note_words d) ≡ 16)
      × (read_deposit_note (deposit_note_words d) ≡ d)
unfolding note_words deposit_note_words
read-note_words n d l l' =
    let amount = from_limbs32-amount_limbs n.amt l in
    let amount' = from_limbs32-amount_limbs d.amount l' in
    (refl, λ i. record n { amt = amount i }, refl, λ i. record d { amount = amount' i })
