-- ===== src/Client/Curve.antt =====
-- doxa-client/src/ecgfp5.rs: the points of the curve, and `to_bit_arr` of schnorr.rs.
use doxa.Prelude.{
  ℕ, zero, suc, ◌+◌, ◌-◌, ◌/◌, ◌%◌, ◌^◌, Bool, true, false, List, [], ◌∷◌, Option, ◌==◌, get_or,
  if◌then◌else◌, Result, ok, ◌>>=◌, unwrap,
}
use doxa.Client.Account.{CompressedPublicKey}
use doxa.Client.Scalar.{Scalar}

-- The operations of plonky2's `QuinticExtension` that points use. `from_array` is
-- `from_basefield_array` of five canonical numbers, and `to_array` gives them back.
pub record QuinticField (X : Type 0) : Type 0 where
  pub add : X → X → X
  pub sub : X → X → X
  pub mul : X → X → X
  pub try_inverse : X → Option X
  pub eq : X → X → Bool
  pub from_array : CompressedPublicKey → X
  pub to_array : X → CompressedPublicKey

-- What ends in a value or a panic.
abbrev pub PointResult : Type 0 → Type 0
PointResult A = Result ⊥ A

-- `Scalar::BITS`
abbrev pub bits : ℕ
bits = 319

abbrev pub bit_at : Scalar → ℕ → Bool
bit_at s i = get_or s (i / 64) 0 / 2 ^ (i % 64) % 2 == 1

-- The bits from `i` on.
abbrev pub bits_from : Scalar → ℕ → ℕ → List Bool
bits_from s i zero = []
bits_from s i (suc count) = bit_at s i ∷ bits_from s (i + 1) count

unfoldable pub to_bit_arr : Scalar → List Bool
to_bit_arr s = bits_from s 0 bits

-- The `while` loop that looks for the highest bit.
abbrev pub top_loop : List Bool → ℕ → ℕ
top_loop bit_arr zero = zero
top_loop bit_arr (suc top) =
    let rest = top_loop bit_arr top in if get_or bit_arr top false then suc top else rest

pub record PointEw (X : Type 0) : Type 0 where
  pub x : X
  pub y : X
  pub at_inf : Bool

module _ {X : Type 0} (field : QuinticField X) where
  -- Division panics on zero, as `inverse` does.
  abbrev pub div : X → X → PointResult X
  div a b = do inverse ← unwrap (field.try_inverse b); ok (field.mul a inverse)

  unfoldable pub scalar : ℕ → X
  scalar c = field.from_array (record { w0 = c; w1 = 0; w2 = 0; w3 = 0; w4 = 0 })

  unfoldable pub neutral : PointEw X
  unfolding scalar
  neutral = record { x = scalar 0; y = scalar 0; at_inf = true }

  -- a / 3
  unfoldable pub adiv3 : X
  unfolding scalar
  adiv3 = scalar 6148914689804861441

  unfoldable pub cap_a : X
  cap_a = field.from_array (record { w0 = 6148914689804861439; w1 = 263; w2 = 0; w3 = 0; w4 = 0 })

  unfoldable pub generator : PointEw X
  generator = record {
    x = field.from_array (record {
      w0 = 11712523173042564207;
      w1 = 14090224426659529053;
      w2 = 13197813503519687414;
      w3 = 16280770174934269299;
      w4 = 15998333998318935536;
    });
    y = field.from_array (record {
      w0 = 14639054205878357578;
      w1 = 17426078571020221072;
      w2 = 2548978194165003307;
      w3 = 8663895577921260088;
      w4 = 9793640284382595140;
    });
    at_inf = false;
  }

  unfoldable pub add_incomplete : PointEw X → PointEw X → PointResult (PointEw X)
  add_incomplete p q = do
    lambda ← div (field.sub q.y p.y) (field.sub q.x p.x)
    let x3 = field.sub (field.sub (field.mul lambda lambda) p.x) q.x
    let y3 = field.sub (field.mul lambda (field.sub p.x x3)) p.y
    ok (record { x = x3; y = y3; at_inf = false })

  unfoldable pub double : PointEw X → PointResult (PointEw X)
  unfolding scalar cap_a
  double p = do
    let x_sq = field.mul p.x p.x
    let num = field.add (field.mul x_sq (scalar 3)) cap_a
    let den = field.mul p.y (scalar 2)
    lambda ← div num den
    let x3 = field.sub (field.sub (field.mul lambda lambda) p.x) p.x
    let w3 = field.sub (field.mul lambda (field.sub p.x x3)) p.y
    ok (record { x = x3; y = w3; at_inf = false })

  unfoldable pub add : PointEw X → PointEw X → PointResult (PointEw X)
  unfolding add_incomplete double neutral
  add p q =
      if p.at_inf
      then ok q
      else if q.at_inf
      then ok p
      else if field.eq p.x q.x
      then (if field.eq p.y q.y then double p else ok neutral)
      else add_incomplete p q

  -- The loop over the bits below the highest one, downwards.
  unfoldable pub mul_loop : PointEw X → List Bool → PointEw X → ℕ → PointResult (PointEw X)
  unfolding double add
  mul_loop p bit_arr acc zero = ok acc
  mul_loop p bit_arr acc (suc i) = do
    doubled ← double acc
    next ← if get_or bit_arr i false then add doubled p else ok doubled
    mul_loop p bit_arr next i

  unfoldable pub scalar_mul : PointEw X → Scalar → PointResult (PointEw X)
  unfolding mul_loop to_bit_arr neutral
  scalar_mul p s =
      if p.at_inf
      then ok neutral
      else let bit_arr = to_bit_arr s in
        let top = top_loop bit_arr bits in
        if top == 0 then ok neutral else mul_loop p bit_arr p (top - 1)

  -- The compressed point is given by its five numbers.
  unfoldable pub encode : PointEw X → PointResult CompressedPublicKey
  unfolding scalar adiv3
  encode p =
      if p.at_inf
      then ok (field.to_array (scalar 0))
      else (do w ← div p.y (field.sub adiv3 p.x); ok (field.to_array w))
