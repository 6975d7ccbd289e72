-- ===== src/Server/Batch/Preimage.antt =====
-- The words of a batch's pre-image give back the public inputs.
use doxa.Prelude.{
  ℕ, zero, suc, ◌+◌, ◌*◌, ◌/◌, ◌%◌, ◌^◌, ◌≤◌, ◌<◌, ◌≡◌, refl, sym, ap, ap₂, ◌∙◌, List, [], ◌∷◌,
  ◌++◌, arith, length, take, drop, leb, true, ok, index,
}
use doxa.Hasher.{HashOutput}
use doxa.Client.PublicInputs.{ProofWithPublicInputs, batch_common_pis, batch_unique_pis}
use doxa.Server.Batch.{BatchError, push_fields, push_unique_pis, pi_preimage_words}

-- Each pair of words as one number.
abbrev pub unpack : List ℕ → List ℕ
unpack [] = []
unpack (lo ∷ []) = []
unpack (lo ∷ hi ∷ words) = (lo + hi * 2 ^ 32) ∷ unpack words

-- Elements that fit `u64`.
abbrev pub AllU64 : List ℕ → Type 0
AllU64 [] = Unit {0}
AllU64 (v ∷ fields) = (v < 2 ^ 64) × AllU64 fields

AllU64-append : (xs ys : List ℕ) → AllU64 xs → AllU64 ys → AllU64 (xs ++ ys)
AllU64-append [] ys a b = b
AllU64-append (x ∷ xs) ys a b = (a.0, AllU64-append xs ys a.1 b)

AllU64-take : (n : ℕ) (xs : List ℕ) → AllU64 xs → AllU64 (take n xs)
AllU64-take zero xs a = tt
AllU64-take (suc n) [] a = tt
AllU64-take (suc n) (x ∷ xs) a = (a.0, AllU64-take n xs a.1)

AllU64-drop : (n : ℕ) (xs : List ℕ) → AllU64 xs → AllU64 (drop n xs)
AllU64-drop zero xs a = a
AllU64-drop (suc n) [] a = tt
AllU64-drop (suc n) (x ∷ xs) a = AllU64-drop n xs a.1

unpack-push_fields : (fields : List ℕ) → AllU64 fields → unpack (push_fields fields) ≡ fields
unfolding push_fields
unpack-push_fields [] all = refl
unpack-push_fields (v ∷ fields) all =
    let whole : v % 2 ^ 32 + ((v / 2 ^ 32) % 2 ^ 32) * 2 ^ 32 ≡ v = omega (arith, all.0) in
    ap₂ ◌∷◌ whole (unpack-push_fields fields all.1)

push_fields-append : (xs ys : List ℕ) → push_fields (xs ++ ys) ≡ push_fields xs ++ push_fields ys
unfolding push_fields
push_fields-append [] ys = refl
push_fields-append (x ∷ xs) ys =
    ap (λ ws. x % 2 ^ 32 ∷ (x / 2 ^ 32) % 2 ^ 32 ∷ ws) (push_fields-append xs ys)

abbrev pub all_unique_pis : List ProofWithPublicInputs → List ℕ
all_unique_pis [] = []
all_unique_pis (p ∷ proofs) = drop 8 p.public_inputs ++ all_unique_pis proofs

-- Proofs with the public inputs that all kinds share.
abbrev pub AllReadable : List ProofWithPublicInputs → Type 0
AllReadable [] = Unit {0}
AllReadable (p ∷ proofs) =
    (8 ≤ length p.public_inputs) × AllU64 p.public_inputs × AllReadable proofs

le→leb : (a b : ℕ) → a ≤ b → leb a b ≡ true
le→leb a b l = ground arith

push_unique_pis_lem :
    (proofs : List ProofWithPublicInputs)
    → AllReadable proofs
    → push_unique_pis proofs ≡ ok (push_fields (all_unique_pis proofs))
unfolding push_unique_pis batch_unique_pis push_fields
push_unique_pis_lem [] all = refl
push_unique_pis_lem (p ∷ proofs) all = rw (le→leb 8 (length p.public_inputs) all.0) (
    rw (push_unique_pis_lem proofs all.2)
      (ap ok (sym (push_fields-append (drop 8 p.public_inputs) (all_unique_pis proofs)))))

AllU64-all_unique_pis :
    (proofs : List ProofWithPublicInputs) → AllReadable proofs → AllU64 (all_unique_pis proofs)
AllU64-all_unique_pis [] all = tt
AllU64-all_unique_pis (p ∷ proofs) all =
    AllU64-append (drop 8 p.public_inputs) (all_unique_pis proofs)
      (AllU64-drop 8 p.public_inputs all.1) (AllU64-all_unique_pis proofs all.2)

abbrev pub elements : HashOutput → List ℕ
elements r = r.e0 ∷ r.e1 ∷ r.e2 ∷ r.e3 ∷ []

pi_preimage_words_lem :
    (root : HashOutput) (first : ProofWithPublicInputs) (proofs : List ProofWithPublicInputs)
    (common unique : List ℕ)
    → index {E = BatchError} proofs 0 ≡ ok first
    → batch_common_pis {E = BatchError} first ≡ ok common
    → push_unique_pis proofs ≡ ok unique
    → pi_preimage_words (ok root) proofs
      ≡ ok (push_fields (elements root) ++ (push_fields common ++ unique))
unfolding pi_preimage_words
pi_preimage_words_lem root first proofs common unique i c u = rw i (rw c (rw u))

batch_common_pis_lem :
    (p : ProofWithPublicInputs)
    → 8 ≤ length p.public_inputs
    → batch_common_pis {E = BatchError} p ≡ ok (take 8 p.public_inputs)
unfolding batch_common_pis
batch_common_pis_lem p l = rw (le→leb 8 (length p.public_inputs) l)

-- For a batch with a root, at least one proof and elements that fit 64 bits, each proof having at
-- least 8 of them, the pre-image succeeds, and pairing its words gives back, in this order, the
-- four elements of the root, the first 8 public inputs of the first proof, and the public inputs
-- after the eighth of every proof.
pub unpack-pi_preimage_words :
    (root : HashOutput) (first : ProofWithPublicInputs) (proofs : List ProofWithPublicInputs)
    → AllU64 (elements root)
    → AllReadable (first ∷ proofs)
    → (words : List ℕ) × (pi_preimage_words (ok root) (first ∷ proofs) ≡ ok words)
      × (unpack words
          ≡ elements root ++ (take 8 first.public_inputs ++ all_unique_pis (first ∷ proofs)))
unpack-pi_preimage_words root first proofs r all =
    let common = take 8 first.public_inputs in
    let unique = all_unique_pis (first ∷ proofs) in
    let fields = elements root ++ (common ++ unique) in
    (
      push_fields fields,
      pi_preimage_words_lem root first (first ∷ proofs) common (push_fields unique) refl
            (batch_common_pis_lem first all.0) (push_unique_pis_lem (first ∷ proofs) all)
          ∙ ap (λ ws. ok (push_fields (elements root) ++ ws))
              (sym (push_fields-append common unique))
          ∙ ap ok (sym (push_fields-append (elements root) (common ++ unique))),
      unpack-push_fields fields (
          AllU64-append (elements root) (common ++ unique) r (
            AllU64-append common unique (AllU64-take 8 first.public_inputs all.1)
              (AllU64-all_unique_pis (first ∷ proofs) all))),
    )
