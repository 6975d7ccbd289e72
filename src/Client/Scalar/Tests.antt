-- ===== src/Client/Scalar/Tests.antt =====
-- Scalars at small and at large values.
use doxa.Prelude.{
  ℕ, zero, suc, ◌+◌, ◌-◌, ◌*◌, ◌^◌, ◌≡◌, refl, [], ◌∷◌, arith, All, replicate, some, ok,
}
use doxa.Client.Scalar.{Scalar, order, add_mod, sub_mod, neg_mod, mul_mod}
use doxa.Client.Scalar.Limbs.{value}
use doxa.Client.Scalar.Modular.{IsScalar, IsResult, add_mod-sub_mod}
use doxa.Client.Scalar.Montgomery.{mul_mod-IsResult}
use doxa.Client.Scalar.Decode.{decode, decode_reduce, from_hash}
use doxa.Client.Scalar.Decode.Words.{number, IsByte}
use doxa.Client.Scalar.Decode.Reduced.{decode_reduce-IsResult}

-- The order less 3, and 7.
abbrev largest : Scalar
largest =
    16721823182210465758 ∷ 16755743817124323484 ∷ 9223371928670570041 ∷ 9223371972430266390
    ∷ 9223372026117357575 ∷ []

abbrev seven : Scalar
seven = 7 ∷ 0 ∷ 0 ∷ 0 ∷ 0 ∷ []

largest-IsScalar : IsScalar largest
largest-IsScalar = record {
  array = record {
    size = refl;
    words = (omega arith, (omega arith, (omega arith, (omega arith, (omega arith, tt)))));
  };
  reduced = omega arith;
}

seven-IsScalar : IsScalar seven
seven-IsScalar = record {
  array = record {
    size = refl;
    words = (omega arith, (omega arith, (omega arith, (omega arith, (omega arith, tt)))));
  };
  reduced = omega arith;
}

add_runs : add_mod largest seven ≡ 4 ∷ 0 ∷ 0 ∷ 0 ∷ 0 ∷ []
unfolding add_mod
add_runs = refl

-- Minus 3 times 7.
mul_runs : mul_mod largest seven ≡ neg_mod (21 ∷ 0 ∷ 0 ∷ 0 ∷ 0 ∷ [])
unfolding mul_mod neg_mod
mul_runs = refl

add_mod-sub_mod_example :
    IsResult (value largest + value seven) (add_mod largest seven)
    × IsResult (value largest + (value order - value seven)) (sub_mod largest seven)
    × IsResult (value order - value seven) (neg_mod seven)
add_mod-sub_mod_example = add_mod-sub_mod largest seven largest-IsScalar seven-IsScalar

mul_mod-IsResult_example : IsResult (value largest * value seven) (mul_mod largest seven)
mul_mod-IsResult_example = mul_mod-IsResult largest seven largest-IsScalar seven-IsScalar.array

many_bytes : (n : ℕ) → All IsByte (replicate n 200)
many_bytes zero = tt
many_bytes (suc n) = (omega arith, many_bytes n)

-- More than one chunk.
decode_reduce-IsResult_example :
    (r : Scalar) × (decode_reduce (replicate 100 200) ≡ ok r)
    × IsResult (number (replicate 100 200)) r
decode_reduce-IsResult_example = decode_reduce-IsResult (replicate 100 200) (many_bytes 100)

decode_runs : decode (1 ∷ 2 ∷ 0 ∷ 0 ∷ 0 ∷ 0 ∷ 0 ∷ 0 ∷ 3 ∷ []) ≡ some (513 ∷ 3 ∷ 0 ∷ 0 ∷ 0 ∷ [])
unfolding decode
decode_runs = refl

from_hash_runs : from_hash (1 ∷ 2 ∷ 3 ∷ 4 ∷ (2 ^ 63 + 5) ∷ []) ≡ 1 ∷ 2 ∷ 3 ∷ 4 ∷ 5 ∷ []
unfolding from_hash
from_hash_runs = refl
