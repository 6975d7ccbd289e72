-- ===== src/Client/Spend/Calls/Run.antt =====
-- What any calls of the methods of `SpendTxBuilder` lead to.
use doxa.Prelude.{
  ℕ, ◌+◌, ◌-◌, ◌≡◌, ◌≢◌, refl, ap, sym, subst, ◌∙◌, List, [], ◌∷◌, ◌++◌, append_assoc, append-nil,
  length, length-append, Option, none, some, arith, ◌==◌, Bool-cases, inl, inr, ok, panic, ◌>>=◌,
  ok_of_bind, ok-total, bind-total,
}
use doxa.Hasher.{HashOutput}
use doxa.Client.Assets.{AssetId}
use doxa.Client.Account.{StandardAccount}
use doxa.Client.Spend.{SpendTxBuilder, note_batch, new, sample}
use doxa.Client.Spend.Calls.{
  SpendCall, add_input, add_rejected, add_output, sample_inputs, sample_outputs, inputs_of,
  rejected_of, outputs_of, dinotes_of, donotes_of, apply, run, IsValid,
}
use doxa.Client.Spend.Calls.Applied.{apply-Applied, apply-total}

module _ (hash_no_pad : List ℕ → HashOutput) (accin : StandardAccount) (asset : AssetId) where
  -- What a chain of calls that succeeds leaves.
  record Ran (calls : List SpendCall) (b b' : SpendTxBuilder) : Type 0 where
    valid : IsValid hash_no_pad accin asset b'
    input_notes : b'.input_notes ≡ b.input_notes ++ inputs_of calls
    rejected_notes : b'.rejected_notes ≡ b.rejected_notes ++ rejected_of calls
    output_notes : b'.output_notes ≡ b.output_notes ++ outputs_of hash_no_pad accin asset calls
    dinotes :
        b'.dinotes ≡ dinotes_of (length b.rejected_notes + length b.input_notes) b.dinotes calls
    donotes :
        b'.donotes ≡ donotes_of (length b.rejected_notes + length b.output_notes) b.donotes calls

  joined {ℓ} :
      {A : Type ℓ} (xs ys zs first rest : List A)
      → ys ≡ xs ++ first
      → zs ≡ ys ++ rest
      → zs ≡ xs ++ (first ++ rest)
  joined xs ys zs first rest e f = f ∙ ap (λ l. l ++ rest) e ∙ append_assoc xs first rest

  in_parts :
      (call : SpendCall) (calls : List SpendCall)
      → (inputs_of (call ∷ []) ++ inputs_of calls ≡ inputs_of (call ∷ calls))
        × (rejected_of (call ∷ []) ++ rejected_of calls ≡ rejected_of (call ∷ calls))
        × (outputs_of hash_no_pad accin asset (call ∷ [])
              ++ outputs_of hash_no_pad accin asset calls
            ≡ outputs_of hash_no_pad accin asset (call ∷ calls))
  in_parts (add_input note position) calls = (refl, refl, refl)
  in_parts (add_rejected note position) calls = (refl, refl, refl)
  in_parts (add_output to amount memo id) calls = (refl, refl, refl)
  in_parts (sample_inputs seeds) calls = (refl, refl, refl)
  in_parts (sample_outputs seeds) calls = (refl, refl, refl)

  -- Seeds after a call and the others.
  dinotes_in_parts :
      (call : SpendCall) (calls : List SpendCall) (returned used returned' used' : ℕ)
      (kept : Option (List HashOutput))
      → returned' ≡ returned + length (rejected_of (call ∷ []))
      → used' ≡ used + length (inputs_of (call ∷ []))
      → dinotes_of (returned' + used') (dinotes_of (returned + used) kept (call ∷ [])) calls
        ≡ dinotes_of (returned + used) kept (call ∷ calls)
  dinotes_in_parts (add_input note position) calls returned used returned' used' kept e f =
      ap (λ n. dinotes_of n kept calls) (omega (arith, e, f))
  dinotes_in_parts (add_rejected note position) calls returned used returned' used' kept e f =
      ap (λ n. dinotes_of n kept calls) (omega (arith, e, f))
  dinotes_in_parts (add_output to amount memo id) calls returned used returned' used' kept e f =
      ap (λ n. dinotes_of n kept calls) (omega (arith, e, f))
  dinotes_in_parts (sample_inputs seeds) calls returned used returned' used' kept e f =
      ap (λ n. dinotes_of n (some (sample seeds 0 (note_batch - (returned + used)))) calls)
        (omega (arith, e, f))
  dinotes_in_parts (sample_outputs seeds) calls returned used returned' used' kept e f =
      ap (λ n. dinotes_of n kept calls) (omega (arith, e, f))

  donotes_in_parts :
      (call : SpendCall) (calls : List SpendCall) (returned used returned' used' : ℕ)
      (kept : Option (List HashOutput))
      → returned' ≡ returned + length (rejected_of (call ∷ []))
      → used' ≡ used + length (outputs_of hash_no_pad accin asset (call ∷ []))
      → donotes_of (returned' + used') (donotes_of (returned + used) kept (call ∷ [])) calls
        ≡ donotes_of (returned + used) kept (call ∷ calls)
  donotes_in_parts (add_input note position) calls returned used returned' used' kept e f =
      ap (λ n. donotes_of n kept calls) (omega (arith, e, f))
  donotes_in_parts (add_rejected note position) calls returned used returned' used' kept e f =
      ap (λ n. donotes_of n kept calls) (omega (arith, e, f))
  donotes_in_parts (add_output to amount memo id) calls returned used returned' used' kept e f =
      ap (λ n. donotes_of n kept calls) (omega (arith, e, f))
  donotes_in_parts (sample_inputs seeds) calls returned used returned' used' kept e f =
      ap (λ n. donotes_of n kept calls) (omega (arith, e, f))
  donotes_in_parts (sample_outputs seeds) calls returned used returned' used' kept e f =
      ap (λ n. donotes_of n (some (sample seeds 0 (note_batch - (returned + used)))) calls)
        (omega (arith, e, f))

  grown {ℓ} :
      {A : Type ℓ} (xs ys first : List A) → ys ≡ xs ++ first → length ys ≡ length xs + length first
  grown xs ys first e = ap length e ∙ length-append xs first

  abbrev started : SpendTxBuilder
  started = record {
    accin = accin;
    asset_id = asset;
    input_notes = [];
    output_notes = [];
    rejected_notes = [];
    dinotes = none;
    donotes = none;
  }

  started-IsValid : IsValid hash_no_pad accin asset started
  started-IsValid = record {
    account = refl;
    asset_id = refl;
    inputs = omega arith;
    outputs = omega arith;
    own_inputs = tt;
    own_rejected = tt;
    dinotes = tt;
    donotes = tt;
  }

  run-Ran :
      (calls : List SpendCall) (b : SpendTxBuilder)
      → IsValid hash_no_pad accin asset b
      → (run hash_no_pad accin asset calls b ≢ panic)
        × ((b' : SpendTxBuilder) → run hash_no_pad accin asset calls b ≡ ok b' → Ran calls b b')
  run-Ran [] b v = (
    ok-total _ _ refl,
    λ b' e. subst (Ran [] b) (cc) (record {
      valid = v;
      input_notes = sym (append-nil b.input_notes);
      rejected_notes = sym (append-nil b.rejected_notes);
      output_notes = sym (append-nil b.output_notes);
      dinotes = refl;
      donotes = refl;
    }),
  )
  run-Ran (call ∷ calls) b v = (
    bind-total (run hash_no_pad accin asset calls) (apply hash_no_pad accin asset call b)
        (apply-total hash_no_pad accin asset call b v)
        (λ b1 e.
          (run-Ran calls b1 ((apply-Applied hash_no_pad accin asset call b b1 v e).valid)).0),
    λ b' e.
        let (b1, e1, first) =
          ok_of_bind (run hash_no_pad accin asset calls) (apply hash_no_pad accin asset call b) b'
            e in
        let a = apply-Applied hash_no_pad accin asset call b b1 v first in
        let r = (run-Ran calls b1 a.valid).1 b' e1 in
        let parts = in_parts call calls in
        let returned = grown b.rejected_notes b1.rejected_notes _ a.rejected_notes in
        record {
          valid = r.valid;
          input_notes =
              joined b.input_notes b1.input_notes b'.input_notes _ _ a.input_notes r.input_notes
              ∙ ap (◌++◌ b.input_notes) parts.0;
          rejected_notes =
              joined b.rejected_notes b1.rejected_notes b'.rejected_notes _ _ a.rejected_notes
                r.rejected_notes
              ∙ ap (◌++◌ b.rejected_notes) parts.1;
          output_notes =
              joined b.output_notes b1.output_notes b'.output_notes _ _ a.output_notes
                r.output_notes
              ∙ ap (◌++◌ b.output_notes) parts.2;
          dinotes =
              r.dinotes
              ∙ ap
                  (λ kept. dinotes_of (length b1.rejected_notes + length b1.input_notes) kept calls)
                  a.dinotes
              ∙ dinotes_in_parts call calls _ _ _ _ b.dinotes returned
                  (grown b.input_notes b1.input_notes _ a.input_notes);
          donotes =
              r.donotes
              ∙ ap
                  (λ kept.
                    donotes_of (length b1.rejected_notes + length b1.output_notes) kept calls)
                  a.donotes
              ∙ donotes_in_parts call calls _ _ _ _ b.donotes returned
                  (grown b.output_notes b1.output_notes _ a.output_notes);
        },
  )

  -- No chain of calls on a new builder panics. Where one succeeds, every note it gave stands in the
  -- builder, in the order of the calls; the input and the rejected notes are of the transaction's
  -- asset and to the account; input and rejected notes, and output and rejected notes, take at most
  -- 7 slots. The dummy seeds are those of the last call that sampled them, as many as there were
  -- slots left at that call: together with the notes they are at least 7, and more than 7 where
  -- notes came later.
  pub run-IsValid :
      (calls : List SpendCall)
      → ((new accin asset >>= run hash_no_pad accin asset calls) ≢ panic)
        × ((b : SpendTxBuilder)
            → (new accin asset >>= run hash_no_pad accin asset calls) ≡ ok b
            → IsValid hash_no_pad accin asset b
              × (b.input_notes ≡ inputs_of calls)
              × (b.rejected_notes ≡ rejected_of calls)
              × (b.output_notes ≡ outputs_of hash_no_pad accin asset calls)
              × (b.dinotes ≡ dinotes_of 0 none calls)
              × (b.donotes ≡ donotes_of 0 none calls))
  unfolding new
  run-IsValid calls = elim (Bool-cases (accin.nonce == 0)) [
    | inl fresh ↦ rw fresh (λ r. cc, λ b e. cc)
    | inr used ↦
        let (total, ran) = run-Ran calls started (started-IsValid) in
        rw used (
          total,
          λ b e.
              let r = ran b e in
              (r.valid, r.input_notes, r.rejected_notes, r.output_notes, r.dinotes, r.donotes),
        )
  ]
