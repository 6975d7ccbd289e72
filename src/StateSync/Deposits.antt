-- ===== src/StateSync/Deposits.antt =====
-- doxa-state-sync/src/sync.rs: `sync_deposits`, on the logs that it has fetched and decoded.
use doxa.Prelude.{
  ℕ, ◌≡◌, refl, sym, ap, ◌∙◌, Bool, true, false, List, [], ◌∷◌, Option, none, some, if◌then◌else◌,
  Map, get, insert, member, Bool-cases, Option-cases, inl, inr, get-insert_ne,
}
use doxa.Client.Keys.{bytes_key, bytes_eq, bytes_sound}
use doxa.StateSync.Contract.{Bytes}
use doxa.StateSync.State.{
  StateSyncState, DepositRecord, DepositStatus, pending, validated, withdrawn,
}

-- A `DepositAvailable` log, with the block it stands in.
pub record DepositAvailable : Type 0 where
  pub note_commitment : Bytes
  pub value : ℕ
  pub recipient : Bytes
  pub asset_id : ℕ
  pub block_number : ℕ

abbrev pub new_record : DepositAvailable → DepositRecord
new_record log = record {
  note_commitment = log.note_commitment;
  value = log.value;
  recipient = log.recipient;
  status = pending;
  deposit_block = log.block_number;
  asset_id = log.asset_id;
}

unfoldable pub add_deposits :
    List DepositAvailable → Map Bytes DepositRecord → Map Bytes DepositRecord
add_deposits [] deposits = deposits
add_deposits (log ∷ logs) deposits =
    add_deposits logs (insert deposits log.note_commitment (new_record log))

-- `if let Some(record) = deposits.get_mut(note) { record.status = status }`
abbrev pub with_status :
    DepositStatus → Bytes → Map Bytes DepositRecord → Option DepositRecord → Map Bytes DepositRecord
with_status status note deposits none = deposits
with_status status note deposits (some deposit) =
    insert deposits note (record deposit { status = status })

unfoldable pub set_status :
    DepositStatus → List Bytes → Map Bytes DepositRecord → Map Bytes DepositRecord
set_status status [] deposits = deposits
set_status status (note ∷ notes) deposits =
    set_status status notes (with_status status note deposits (get deposits note))

unfoldable pub sync_deposits :
    List DepositAvailable → List Bytes → List Bytes → StateSyncState → StateSyncState
unfolding add_deposits set_status
sync_deposits available_logs validated_logs withdrawn_logs s = record s {
  deposits =
      set_status withdrawn withdrawn_logs
        (set_status validated validated_logs (add_deposits available_logs s.deposits));
}

abbrev pub at_status : DepositStatus → Bool → Option DepositRecord → Option DepositRecord
at_status status true (some deposit) = some (record deposit { status = status })
at_status status true none = none
at_status status false deposit = deposit

-- The record of the last log of a note, or else what was there.
abbrev pub latest : List DepositAvailable → Bytes → Option DepositRecord → Option DepositRecord
latest [] note before = before
latest (log ∷ logs) note before =
    latest logs note (if bytes_eq note log.note_commitment then some (new_record log) else before)

add_deposits-get :
    (logs : List DepositAvailable) (deposits : Map Bytes DepositRecord) (note : Bytes)
    → get (add_deposits logs deposits) note ≡ latest logs note (get deposits note)
unfolding add_deposits
add_deposits-get [] deposits note = refl
add_deposits-get (log ∷ logs) deposits note =
    add_deposits-get logs (insert deposits log.note_commitment (new_record log)) note
    ∙ ap (latest logs note) (elim (Bool-cases (bytes_eq note log.note_commitment)) [
      | inl same ↦ rw same
      | inr other ↦
          get-insert_ne deposits log.note_commitment note (new_record log) other
          ∙ ap (λ b. if b then some (new_record log) else get deposits note) (sym other)
    ])

with_status-get :
    (status : DepositStatus) (k note : Bytes) (deposits : Map Bytes DepositRecord)
    → get (with_status status k deposits (get deposits k)) note
      ≡ at_status status (bytes_eq note k) (get deposits note)
with_status-get status k note deposits = elim (Bool-cases (bytes_eq note k)) [
  | inl same ↦ elim (Option-cases (get deposits k)) [
    | inl missing ↦
        let here : get deposits note ≡ none =
          ap (get deposits) (bytes_sound note k same) ∙ missing in
        ap (λ o. get (with_status status k deposits o) note) missing
        ∙ here
        ∙ (λ i. at_status status (sym same i) (sym here i))
    | inr (deposit, e) ↦
        let here : get deposits note ≡ some deposit =
          ap (get deposits) (bytes_sound note k same) ∙ e in
        ap (λ o. get (with_status status k deposits o) note) e
        ∙ rw same (ap (at_status status true) (sym here))
  ]
  | inr other ↦ elim (Option-cases (get deposits k)) [
    | inl missing ↦
        ap (λ o. get (with_status status k deposits o) note) missing
        ∙ ap (λ b. at_status status b (get deposits note)) (sym other)
    | inr (deposit, e) ↦
        ap (λ o. get (with_status status k deposits o) note) e
        ∙ get-insert_ne deposits k note (record deposit { status = status }) other
        ∙ ap (λ b. at_status status b (get deposits note)) (sym other)
  ]
]

at_status_twice :
    (status : DepositStatus) (b c : Bool) (o : Option DepositRecord)
    → at_status status b (at_status status c o) ≡ at_status status (if c then true else b) o
at_status_twice status true true none = refl
at_status_twice status true true (some d) = refl
at_status_twice status true false o = refl
at_status_twice status false true o = refl
at_status_twice status false false o = refl

set_status-get :
    (status : DepositStatus) (notes : List Bytes) (deposits : Map Bytes DepositRecord)
    (note : Bytes)
    → get (set_status status notes deposits) note
      ≡ at_status status (member note notes) (get deposits note)
unfolding set_status
set_status-get status [] deposits note = refl
set_status-get status (k ∷ notes) deposits note =
    set_status-get status notes (with_status status k deposits (get deposits k)) note
    ∙ ap (at_status status (member note notes)) (with_status-get status k note deposits)
    ∙ at_status_twice status (member note notes) (bytes_eq note k) (get deposits note)

-- After `sync_deposits` a note has the record of its last new deposit, or else the one it had, and
-- its status is withdrawn if a withdrawal was logged, or else validated if a validation was.
pub sync_deposits-get :
    (available_logs : List DepositAvailable) (validated_logs withdrawn_logs : List Bytes)
    (s : StateSyncState) (note : Bytes)
    → get (sync_deposits available_logs validated_logs withdrawn_logs s).deposits note
      ≡ at_status withdrawn (member note withdrawn_logs) (
          at_status validated
            (member note validated_logs)
            (latest available_logs note (get s.deposits note)))
unfolding sync_deposits
sync_deposits-get available_logs validated_logs withdrawn_logs s note =
    set_status-get withdrawn withdrawn_logs
      (set_status validated validated_logs (add_deposits available_logs s.deposits)) note
    ∙ ap (at_status withdrawn (member note withdrawn_logs)) (
        set_status-get validated validated_logs (add_deposits available_logs s.deposits) note
        ∙ ap (at_status validated (member note validated_logs))
            (add_deposits-get available_logs s.deposits note))
