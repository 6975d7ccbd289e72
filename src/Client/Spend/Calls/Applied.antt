-- ===== src/Client/Spend/Calls/Applied.antt =====
-- What one call of a method of `SpendTxBuilder` leaves.
use doxa.Prelude.{
  ℕ, zero, suc, ◌+◌, ◌-◌, ◌≤◌, ◌≡◌, ◌≢◌, refl, ap, sym, subst, ◌∙◌, max, true, false, not, List, [],
  ◌∷◌, ◌++◌, append-nil, length-append, Option, none, some, arith, length, ltb, ◌==◌, Bool-cases,
  inl, inr, ok, panic, ◌>>=◌, ensure, All-append, ok_of_bind, ok_of_ensure, ensure-total,
  ensure-never_panics, true_of_ensure, ok-total, bind-total,
}
use doxa.Hasher.{HashOutput}
use doxa.Client.Keys.{nat_sound}
use doxa.Client.PublicInputs.{same_hash_eq}
use doxa.Client.Assets.{AssetId}
use doxa.Client.Account.{StandardAccount}
use doxa.Client.Address.{AccountAddress, same_address, from_acc}
use doxa.Client.Notes.{NoteIdentifier, StandardNote}
use doxa.Client.Spend.{
  SpendTxBuilder, SpendTxBuilderError, note_batch, sample, fill, fill_dinotes, fill_donotes,
  check_note, add_input_note, add_output_note, add_rejected_note,
}
use doxa.Client.Spend.Calls.{
  SpendCall, add_input, add_rejected, add_output, sample_inputs, sample_outputs, inputs_of,
  rejected_of, output_note, outputs_of, dinotes_of, donotes_of, apply, Own, Enough, IsValid,
}

module _ (hash_no_pad : List ℕ → HashOutput) (accin : StandardAccount) (asset : AssetId) where
  Enough-le :
      (used used' : ℕ) (seeds : Option (List HashOutput))
      → used ≤ used'
      → Enough used seeds
      → Enough used' seeds
  Enough-le used used' none l e = e
  Enough-le used used' (some seeds) l e = omega arith

  length-sample : (seeds : ℕ → HashOutput) (i n : ℕ) → length (sample seeds i n) ≡ n
  length-sample seeds i zero = refl
  length-sample seeds i (suc n) = ap suc (length-sample seeds (i + 1) n)

  fill_lem :
      (seeds : ℕ → HashOutput) (active returned : ℕ)
      → returned + active ≤ note_batch
      → fill seeds active returned ≡ ok (sample seeds 0 (note_batch - active - returned))
  unfolding fill
  fill_lem seeds active returned l =
      let fits : ltb note_batch (active + returned) ≡ false = ground arith in rw fits refl

  room_of : (n : ℕ) → not (ltb note_batch n) ≡ true → n ≤ note_batch
  room_of n e = ground arith

  same_address_eq : (a b : AccountAddress) → same_address a b ≡ true → a ≡ b
  same_address_eq a b e = elim (Bool-cases (a.subpool_id == b.subpool_id)) [
    | inl same ↦
        let subpool = nat_sound a.subpool_id b.subpool_id same in
        let id = same_hash_eq a.public_id b.public_id (cc) in
        λ i. record { subpool_id = subpool i; public_id = id i }
    | inr other ↦ cc
  ]

  -- What a call that succeeds leaves.
  pub record Applied (call : SpendCall) (b b' : SpendTxBuilder) : Type 0 where
    pub valid : IsValid hash_no_pad accin asset b'
    pub input_notes : b'.input_notes ≡ b.input_notes ++ inputs_of (call ∷ [])
    pub rejected_notes : b'.rejected_notes ≡ b.rejected_notes ++ rejected_of (call ∷ [])
    pub output_notes :
        b'.output_notes ≡ b.output_notes ++ outputs_of hash_no_pad accin asset (call ∷ [])
    pub dinotes :
        b'.dinotes
        ≡ dinotes_of (length b.rejected_notes + length b.input_notes) b.dinotes (call ∷ [])
    pub donotes :
        b'.donotes
        ≡ donotes_of (length b.rejected_notes + length b.output_notes) b.donotes (call ∷ [])

  check_note-Own :
      (note : StandardNote) (position : ℕ) (b : SpendTxBuilder) (u : Unit {0})
      → IsValid hash_no_pad accin asset b
      → check_note hash_no_pad note b ≡ ok u
      → Own hash_no_pad accin asset (note, position)
  unfolding check_note
  check_note-Own note position b u v e =
      let (is_own, e1, u') =
        ok_of_bind
          (λ _.
            ensure (same_address note.recipient (from_acc hash_no_pad b.accin))
              SpendTxBuilderError.recipient_mismatch)
          (ensure (note.asset_id == b.asset_id)
            (SpendTxBuilderError.asset_mismatch b.asset_id note.asset_id))
          u e in
      let same = true_of_ensure (note.asset_id == b.asset_id) _ is_own u' in
      let to = same_address_eq note.recipient _ (true_of_ensure _ _ u e1) in
      record {
        asset_id = nat_sound _ _ same ∙ v.asset_id;
        recipient = to ∙ ap (from_acc hash_no_pad) v.account;
      }

  check_note-total :
      (note : StandardNote) (b : SpendTxBuilder) → check_note hash_no_pad note b ≢ panic
  unfolding check_note
  check_note-total note b =
      ensure-total (note.asset_id == b.asset_id) _ _
        (ensure-never_panics (same_address note.recipient (from_acc hash_no_pad b.accin)) _)

  add_input-Applied :
      (note : StandardNote) (position : ℕ) (b b' : SpendTxBuilder)
      → IsValid hash_no_pad accin asset b
      → add_input_note hash_no_pad note position b ≡ ok b'
      → Applied (add_input note position) b b'
  unfolding add_input_note
  add_input-Applied note position b b' v e =
      let (fits, e1) =
        ok_of_ensure (not (ltb note_batch (length b.rejected_notes + length b.input_notes + 1))) _ _
          b' e in
      let (u, e2, checked) = ok_of_bind _ (check_note hash_no_pad note b) b' e1 in
      let own = check_note-Own note position b u v checked in
      let room = room_of _ fits in
      let size = length-append b.input_notes ((note, position) ∷ []) in
      subst (Applied (add_input note position) b) (cc) (record {
        valid = record {
          account = v.account;
          asset_id = v.asset_id;
          inputs = omega (arith, room, size);
          outputs = v.outputs;
          own_inputs =
              All-append (Own hash_no_pad accin asset) b.input_notes _ v.own_inputs (own, tt);
          own_rejected = v.own_rejected;
          dinotes = Enough-le _ _ b.dinotes (omega (arith, size)) v.dinotes;
          donotes = v.donotes;
        };
        input_notes = refl;
        rejected_notes = sym (append-nil b.rejected_notes);
        output_notes = sym (append-nil b.output_notes);
        dinotes = refl;
        donotes = refl;
      })

  add_rejected-Applied :
      (note : StandardNote) (position : ℕ) (b b' : SpendTxBuilder)
      → IsValid hash_no_pad accin asset b
      → add_rejected_note hash_no_pad note position b ≡ ok b'
      → Applied (add_rejected note position) b b'
  unfolding add_rejected_note
  add_rejected-Applied note position b b' v e =
      let used = max (length b.input_notes) (length b.output_notes) in
      let (fits, e1) =
        ok_of_ensure (not (ltb note_batch (length b.rejected_notes + 1 + used))) _ _ b' e in
      let (u, e2, checked) = ok_of_bind _ (check_note hash_no_pad note b) b' e1 in
      let own = check_note-Own note position b u v checked in
      let room = room_of _ fits in
      let size = length-append b.rejected_notes ((note, position) ∷ []) in
      subst (Applied (add_rejected note position) b) (cc) (record {
        valid = record {
          account = v.account;
          asset_id = v.asset_id;
          inputs = omega (arith, room, size);
          outputs = omega (arith, room, size);
          own_inputs = v.own_inputs;
          own_rejected =
              All-append (Own hash_no_pad accin asset) b.rejected_notes _ v.own_rejected (own, tt);
          dinotes = Enough-le _ _ b.dinotes (omega (arith, size)) v.dinotes;
          donotes = Enough-le _ _ b.donotes (omega (arith, size)) v.donotes;
        };
        input_notes = sym (append-nil b.input_notes);
        rejected_notes = refl;
        output_notes = sym (append-nil b.output_notes);
        dinotes = refl;
        donotes = refl;
      })

  add_output-Applied :
      (to : AccountAddress) (amount : ℕ) (memo : List ℕ) (id : NoteIdentifier)
      (b b' : SpendTxBuilder)
      → IsValid hash_no_pad accin asset b
      → add_output_note hash_no_pad to amount memo id b ≡ ok b'
      → Applied (add_output to amount memo id) b b'
  unfolding add_output_note
  add_output-Applied to amount memo id b b' v e =
      let (fits, e1) =
        ok_of_ensure (not (ltb note_batch (length b.rejected_notes + length b.output_notes + 1))) _
          _ b' e in
      let room = room_of _ fits in
      let made = record (output_note hash_no_pad accin asset to amount memo id) {
        asset_id = b.asset_id;
        sender = from_acc hash_no_pad b.accin;
      } in
      let size = length-append b.output_notes (made ∷ []) in
      let the_note : made ≡ output_note hash_no_pad accin asset to amount memo id = λ i.
        record (output_note hash_no_pad accin asset to amount memo id) {
          asset_id = v.asset_id i;
          sender = from_acc hash_no_pad (v.account i);
        } in
      subst (Applied (add_output to amount memo id) b) (cc) (record {
        valid = record {
          account = v.account;
          asset_id = v.asset_id;
          inputs = v.inputs;
          outputs = omega (arith, room, size);
          own_inputs = v.own_inputs;
          own_rejected = v.own_rejected;
          dinotes = v.dinotes;
          donotes = Enough-le _ _ b.donotes (omega (arith, size)) v.donotes;
        };
        input_notes = sym (append-nil b.input_notes);
        rejected_notes = sym (append-nil b.rejected_notes);
        output_notes = ap (λ n. b.output_notes ++ n ∷ []) the_note;
        dinotes = refl;
        donotes = refl;
      })

  fill_dinotes_lem :
      (seeds : ℕ → HashOutput) (b : SpendTxBuilder)
      → IsValid hash_no_pad accin asset b
      → fill_dinotes seeds b
        ≡ ok (record b {
          dinotes =
              some (sample seeds 0 (note_batch - length b.input_notes - length b.rejected_notes));
        })
  unfolding fill_dinotes
  fill_dinotes_lem seeds b v =
      ap (λ filled. filled >>= λ seeds. ok (record b { dinotes = some seeds }))
        (fill_lem seeds (length b.input_notes) (length b.rejected_notes) v.inputs)

  fill_dinotes-Applied :
      (seeds : ℕ → HashOutput) (b b' : SpendTxBuilder)
      → IsValid hash_no_pad accin asset b
      → fill_dinotes seeds b ≡ ok b'
      → Applied (sample_inputs seeds) b b'
  fill_dinotes-Applied seeds b b' v e =
      let count = note_batch - length b.input_notes - length b.rejected_notes in
      let enough = length-sample seeds 0 count in
      let filled = fill_dinotes_lem seeds b v in
      let left = record b { dinotes = some (sample seeds 0 count) } in
      let same : left ≡ b' = cc in
      subst (Applied (sample_inputs seeds) b) same (record {
        valid = record {
          account = v.account;
          asset_id = v.asset_id;
          inputs = v.inputs;
          outputs = v.outputs;
          own_inputs = v.own_inputs;
          own_rejected = v.own_rejected;
          dinotes = omega (arith, enough);
          donotes = v.donotes;
        };
        input_notes = sym (append-nil b.input_notes);
        rejected_notes = sym (append-nil b.rejected_notes);
        output_notes = sym (append-nil b.output_notes);
        dinotes = ap (λ n. some (sample seeds 0 n)) (omega arith);
        donotes = refl;
      })

  fill_donotes_lem :
      (seeds : ℕ → HashOutput) (b : SpendTxBuilder)
      → IsValid hash_no_pad accin asset b
      → fill_donotes seeds b
        ≡ ok (record b {
          donotes =
              some (sample seeds 0 (note_batch - length b.output_notes - length b.rejected_notes));
        })
  unfolding fill_donotes
  fill_donotes_lem seeds b v =
      ap (λ filled. filled >>= λ seeds. ok (record b { donotes = some seeds }))
        (fill_lem seeds (length b.output_notes) (length b.rejected_notes) v.outputs)

  fill_donotes-Applied :
      (seeds : ℕ → HashOutput) (b b' : SpendTxBuilder)
      → IsValid hash_no_pad accin asset b
      → fill_donotes seeds b ≡ ok b'
      → Applied (sample_outputs seeds) b b'
  fill_donotes-Applied seeds b b' v e =
      let count = note_batch - length b.output_notes - length b.rejected_notes in
      let enough = length-sample seeds 0 count in
      let filled = fill_donotes_lem seeds b v in
      let left = record b { donotes = some (sample seeds 0 count) } in
      let same : left ≡ b' = cc in
      subst (Applied (sample_outputs seeds) b) same (record {
        valid = record {
          account = v.account;
          asset_id = v.asset_id;
          inputs = v.inputs;
          outputs = v.outputs;
          own_inputs = v.own_inputs;
          own_rejected = v.own_rejected;
          dinotes = v.dinotes;
          donotes = omega (arith, enough);
        };
        input_notes = sym (append-nil b.input_notes);
        rejected_notes = sym (append-nil b.rejected_notes);
        output_notes = sym (append-nil b.output_notes);
        dinotes = refl;
        donotes = ap (λ n. some (sample seeds 0 n)) (omega arith);
      })

  pub apply-Applied :
      (call : SpendCall) (b b' : SpendTxBuilder)
      → IsValid hash_no_pad accin asset b
      → apply hash_no_pad accin asset call b ≡ ok b'
      → Applied call b b'
  apply-Applied (add_input note position) = add_input-Applied note position
  apply-Applied (add_rejected note position) = add_rejected-Applied note position
  apply-Applied (add_output to amount memo id) = add_output-Applied to amount memo id
  apply-Applied (sample_inputs seeds) = fill_dinotes-Applied seeds
  apply-Applied (sample_outputs seeds) = fill_donotes-Applied seeds

  pub apply-total :
      (call : SpendCall) (b : SpendTxBuilder)
      → IsValid hash_no_pad accin asset b
      → apply hash_no_pad accin asset call b ≢ panic
  unfolding add_input_note add_rejected_note add_output_note
  apply-total (add_input note position) b v =
      ensure-total (not (ltb note_batch (length b.rejected_notes + length b.input_notes + 1))) _ _ (
        bind-total _ (check_note hash_no_pad note b) (check_note-total note b)
          (λ u same. ok-total _ _ refl))
  apply-total (add_rejected note position) b v =
      ensure-total
        (not (
          ltb note_batch
            (length b.rejected_notes + 1 + max (length b.input_notes) (length b.output_notes))))
        _ _
        (bind-total _ (check_note hash_no_pad note b) (check_note-total note b)
          (λ u same. ok-total _ _ refl))
  apply-total (add_output to amount memo id) b v =
      ensure-total (not (ltb note_batch (length b.rejected_notes + length b.output_notes + 1))) _ _
        (ok-total _ _ refl)
  apply-total (sample_inputs seeds) b v = ok-total _ _ (fill_dinotes_lem seeds b v)
  apply-total (sample_outputs seeds) b v = ok-total _ _ (fill_donotes_lem seeds b v)
