-- ===== src/Client/Address.antt =====
-- doxa-client/src/account.rs: `AccountAddress` and its encodings.
use doxa.Prelude.{
  ℕ, ◌*◌, ◌<◌, ◌≡◌, ap, ◌∙◌, ◌&&◌, Bool, List, ◌∷◌, arith, length, ◌==◌, Result, ok, ◌>>=◌, ◌>>◌,
  ensure,
}
use doxa.Hasher.{HashOutput}
use doxa.StateSync.Contract.{Bytes, goldilocks_prime}
use doxa.StateSync.Contract.Encodings.{IsCanonical}
use doxa.Client.PublicInputs.{same_hash}
use doxa.Client.Words.{
  le_words, word_at, from_canonical_u64, AllU64, word_at-le_words, length-le_words,
}
use doxa.Client.Account.{StandardAccount, public_id, hash_words}

pub record AccountAddress : Type 0 where
  pub subpool_id : ℕ
  pub public_id : HashOutput

-- Derived `PartialEq`.
abbrev pub same_address : AccountAddress → AccountAddress → Bool
same_address a b = (a.subpool_id == b.subpool_id) && same_hash a.public_id b.public_id

unfoldable pub from_acc : (List ℕ → HashOutput) → StandardAccount → AccountAddress
unfolding public_id
from_acc hash_no_pad acc = record {
  subpool_id = acc.subpool_id;
  public_id = public_id hash_no_pad acc;
}

pub data AddressError : Type 0 where
  wrong_length : ℕ → AddressError
  invalid_hex : AddressError

unfoldable pub to_bytes : AccountAddress → Bytes
unfolding le_words
to_bytes a = le_words (a.subpool_id ∷ hash_words a.public_id)

-- The elements that stand in a buffer.
abbrev pub address_at : Bytes → AccountAddress
address_at bytes = record {
  subpool_id = from_canonical_u64 (word_at 0 bytes);
  public_id = record {
    e0 = from_canonical_u64 (word_at 1 bytes);
    e1 = from_canonical_u64 (word_at 2 bytes);
    e2 = from_canonical_u64 (word_at 3 bytes);
    e3 = from_canonical_u64 (word_at 4 bytes);
  };
}

unfoldable pub from_bytes : Bytes → Result AddressError AccountAddress
from_bytes bytes = do
  ensure (length bytes == 40) (wrong_length (length bytes))
  ok (address_at bytes)

-- The elements of an address are canonical.
pub record IsCanonicalAddress (a : AccountAddress) : Type 0 where
  pub subpool : a.subpool_id < goldilocks_prime
  pub id : IsCanonical a.public_id

from_bytes-to_bytes : (a : AccountAddress) → IsCanonicalAddress a → from_bytes (to_bytes a) ≡ ok a
unfolding from_bytes to_bytes
from_bytes-to_bytes a c =
    let vs = a.subpool_id ∷ hash_words a.public_id in
    let all : AllU64 vs = omega (arith, c.subpool, c.id.c0, c.id.c1, c.id.c2, c.id.c3) in
    let w0 : from_canonical_u64 (word_at 0 (le_words vs)) ≡ a.subpool_id =
      omega (arith, c.subpool, word_at-le_words 0 vs all (omega arith)) in
    let w1 : from_canonical_u64 (word_at 1 (le_words vs)) ≡ a.public_id.e0 =
      omega (arith, c.id.c0, word_at-le_words 1 vs all (omega arith)) in
    let w2 : from_canonical_u64 (word_at 2 (le_words vs)) ≡ a.public_id.e1 =
      omega (arith, c.id.c1, word_at-le_words 2 vs all (omega arith)) in
    let w3 : from_canonical_u64 (word_at 3 (le_words vs)) ≡ a.public_id.e2 =
      omega (arith, c.id.c2, word_at-le_words 3 vs all (omega arith)) in
    let w4 : from_canonical_u64 (word_at 4 (le_words vs)) ≡ a.public_id.e3 =
      omega (arith, c.id.c3, word_at-le_words 4 vs all (omega arith)) in
    ap (λ n. ensure (n == 40) (wrong_length n) >> ok (address_at (le_words vs)))
      (length-le_words vs)
    ∙ (λ i. ok (record {
      subpool_id = w0 i;
      public_id = record { e0 = w1 i; e1 = w2 i; e2 = w3 i; e3 = w4 i };
    }))

-- The crate hex, by what `encode` gives and `decode` gives back.
module _ (encode : Bytes → List ℕ) (decode : List ℕ → Result AddressError Bytes) where
  unfoldable pub to_hex : AccountAddress → List ℕ
  unfolding to_bytes
  to_hex a = encode (to_bytes a)

  unfoldable pub from_hex : List ℕ → Result AddressError AccountAddress
  unfolding from_bytes
  from_hex s = do
    ensure (length s == 80) (wrong_length (length s))
    bytes ← decode s
    from_bytes bytes

  -- Let `encode` give two digits for each byte and `decode` give back what was encoded. An address
  -- of canonical elements is given back from its 40 bytes and from its 80 hex digits.
  pub address_encodings :
      ((bytes : Bytes) → length (encode bytes) ≡ 2 * length bytes)
      → ((bytes : Bytes) → decode (encode bytes) ≡ ok bytes)
      → (a : AccountAddress) → IsCanonicalAddress a
      → (from_bytes (to_bytes a) ≡ ok a) × (from_hex (to_hex a) ≡ ok a)
  unfolding from_hex to_hex to_bytes
  address_encodings doubles inverse a c =
      let bytes = to_bytes a in
      let size : length (encode bytes) ≡ 80 =
        omega (arith, doubles bytes, length-le_words (a.subpool_id ∷ hash_words a.public_id)) in
      let round = from_bytes-to_bytes a c in
      (
        round,
        ap (λ n. ensure (n == 80) (wrong_length n) >> (decode (encode bytes) >>= from_bytes)) size
            ∙ ap (λ r. r >>= from_bytes) (inverse bytes)
            ∙ round,
      )
