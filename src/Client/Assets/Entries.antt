-- ===== src/Client/Assets/Entries.antt =====
-- The balances as a list of entries, by position: what `AccountStateTree` stands for.
use doxa.Prelude.{
  ℕ, suc, ◌+◌, ◌<◌, ◌≡◌, refl, ap, sym, ◌∙◌, true, false, List, [], ◌∷◌, ◌++◌, map, Option, none,
  some, arith, length, set, get_or, ◌==◌, if◌then◌else◌, of_if_true, of_if_false, Bool-cases, inl,
  inr,
}
use doxa.Client.Assets.{AssetId, AccountStateTreeLeaf}

abbrev pub Entries : Type 0
Entries = List AccountStateTreeLeaf

-- The position and the amount of an asset, counted from a number.
abbrev pub find : AssetId → ℕ → Entries → Option (ℕ × ℕ)
find a i [] = none
find a i (e ∷ es) =
    let rest = find a (i + 1) es in if a == e.asset_id then some (i, e.amount) else rest

abbrev pub replace : AssetId → ℕ → Entries → Entries
replace a v [] = []
replace a v (e ∷ es) =
    let rest = replace a v es in
    if a == e.asset_id then record { asset_id = a; amount = v } ∷ es else e ∷ rest

abbrev pub entry : AssetId → ℕ → AccountStateTreeLeaf
entry a v = record { asset_id = a; amount = v }

pub find-append_self :
    (a v i : ℕ) (es : Entries)
    → find a i es ≡ none
    → find a i (es ++ entry a v ∷ []) ≡ some (i + length es, v)
find-append_self a v i [] n = ground arith
find-append_self a v i (e ∷ es) n = elim (Bool-cases (a == e.asset_id)) [
  | inl same ↦
      let found = of_if_true (a == e.asset_id) (some (i, e.amount)) (find a (i + 1) es) same n in cc
  | inr other ↦
      let later = of_if_false (a == e.asset_id) (some (i, e.amount)) (find a (i + 1) es) other n in
      rw other (find-append_self a v (i + 1) es later ∙ ap (λ k. some (k, v)) (omega arith))
]

pub find-append_ne :
    (a v b i : ℕ) (es : Entries) → (b == a) ≡ false → find b i (es ++ entry a v ∷ []) ≡ find b i es
find-append_ne a v b i [] n = rw n
find-append_ne a v b i (e ∷ es) n =
    ap (λ r. if b == e.asset_id then some (i, e.amount) else r) (find-append_ne a v b (i + 1) es n)

pub find-replace_ne :
    (a v b i : ℕ) (es : Entries) → (b == a) ≡ false → find b i (replace a v es) ≡ find b i es
find-replace_ne a v b i [] n = refl
find-replace_ne a v b i (e ∷ es) n = elim (Bool-cases (a == e.asset_id)) [
  | inl same ↦
      let here : a ≡ e.asset_id = ground arith in
      rw same (rw n (rw (ap (λ k. b == k) (sym here) ∙ n)))
  | inr other ↦ rw other (
      ap (λ r. if b == e.asset_id then some (i, e.amount) else r)
        (find-replace_ne a v b (i + 1) es n))
]

pub find-replace_self :
    (a v i k w : ℕ) (es : Entries)
    → find a i es ≡ some (k, w)
    → find a i (replace a v es) ≡ some (k, v)
find-replace_self a v i k w [] f = cc
find-replace_self a v i k w (e ∷ es) f = elim (Bool-cases (a == e.asset_id)) [
  | inl same ↦
      let found = of_if_true (a == e.asset_id) (some (i, e.amount)) (find a (i + 1) es) same f in
      let at : i ≡ k = cc in rw same (rw same_id (ap (λ k. some (k, v)) at))
  | inr other ↦
      let later = of_if_false (a == e.asset_id) (some (i, e.amount)) (find a (i + 1) es) other f in
      rw other (rw other (find-replace_self a v (i + 1) k w es later))
]
  where
    same_id : (a == a) ≡ true
    same_id = ground arith

pub replace_missing : (a v i : ℕ) (es : Entries) → find a i es ≡ none → replace a v es ≡ es
replace_missing a v i [] n = refl
replace_missing a v i (e ∷ es) n = elim (Bool-cases (a == e.asset_id)) [
  | inl same ↦
      let found = of_if_true (a == e.asset_id) (some (i, e.amount)) (find a (i + 1) es) same n in cc
  | inr other ↦
      let later = of_if_false (a == e.asset_id) (some (i, e.amount)) (find a (i + 1) es) other n in
      rw other (ap (◌∷◌ e) (replace_missing a v (i + 1) es later))
]

pub length-replace : (a v : ℕ) (es : Entries) → length (replace a v es) ≡ length es
length-replace a v [] = refl
length-replace a v (e ∷ es) = elim (Bool-cases (a == e.asset_id)) [
  | inl same ↦ rw same refl
  | inr other ↦ rw other (ap suc (length-replace a v es))
]

-- Where an asset is found, its entry stands, and replacing it is a write at that position.
pub found_at {ℓ} :
    {D : Type ℓ} (f : AccountStateTreeLeaf → D) (a v i k w : ℕ) (d : D) (es : Entries)
    → find a i es ≡ some (k, w)
    → (j : ℕ) × (k ≡ i + j)
      × (j < length es)
      × (map f (replace a v es) ≡ set (map f es) j (f (entry a v)))
      × (get_or (map f es) j d ≡ f (entry a w))
found_at f a v i k w d [] e = cc
found_at f a v i k w d (x ∷ es) e = elim (Bool-cases (a == x.asset_id)) [
  | inl same ↦
      let found = of_if_true (a == x.asset_id) (some (i, x.amount)) (find a (i + 1) es) same e in
      let at : i ≡ k = cc in
      let holds : x.amount ≡ w = cc in
      let here : x.asset_id ≡ a = ground arith in
      (
        0,
        omega arith,
        omega arith,
        rw same refl,
        λ i. f (record { asset_id = here i; amount = holds i }),
      )
  | inr other ↦
      let later = of_if_false (a == x.asset_id) (some (i, x.amount)) (find a (i + 1) es) other e in
      let (j, at, inside, writes, holds) = found_at f a v (i + 1) k w d es later in
      (suc j, omega arith, omega arith, rw other (ap (◌∷◌ (f x)) writes), holds)
]
