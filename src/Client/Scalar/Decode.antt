-- ===== src/Client/Scalar/Decode.antt =====
-- doxa-client/src/schnorr.rs: scalars from bytes.
pub mod Bits
pub mod Words
pub mod Reduced
use Prim.Native.Nat.{bit_and, bit_or}
use doxa.Prelude.{
  ℕ, zero, suc, ◌+◌, ◌-◌, ◌*◌, ◌/◌, ◌%◌, ◌^◌, List, [], ◌∷◌, Option, none, some, length, set,
  get_or, take, drop, leb, ltb, ◌==◌, if◌then◌else◌, Result, ok, err, ◌>>=◌, unwrap,
}
use doxa.Client.Scalar
use doxa.Client.Scalar.{Scalar, order, sub_inner, add_mod, montymul}

-- `T632`
abbrev pub power_632 : Scalar
power_632 =
    0x2b0266f317ca91b3 ∷ 0xec1d26528e984773 ∷ 0x8651d7865e12db94 ∷ 0xda2adff5941574d0
    ∷ 0x53caca12110ca256 ∷ []

-- The word of an index with a byte more.
abbrev pub with_byte : ℕ → ℕ → Scalar → Scalar
with_byte i b r = set r (i / 8) (bit_or (get_or r (i / 8) 0) ((b * 2 ^ (8 * (i % 8))) % 2 ^ 64))

-- The loop of `decode` from an index on; `extra` collects the bytes beyond the fortieth.
unfoldable pub decode_loop : ℕ → List ℕ → Scalar → ℕ → Scalar × ℕ
decode_loop i [] r extra = (r, extra)
decode_loop i (b ∷ bytes) r extra =
    let within = decode_loop (i + 1) bytes (with_byte i b r) extra in
    let beyond = decode_loop (i + 1) bytes r (bit_or extra b) in if ltb i 40 then within else beyond

unfoldable pub decode : List ℕ → Option Scalar
unfolding decode_loop sub_inner
decode buf =
    let (r, extra) = decode_loop 0 buf Scalar.zero 0 in
    if leb (length buf) 39
    then some r
    else (let (difference, c) = sub_inner r order in
        let valid = bit_and c (((extra + 255) / 2 ^ 8 + (2 ^ 64 - 1)) % 2 ^ 64) in
        if valid == 0 then none else some r)

pub data ReduceError : Type 0 where
  out_of_fuel : ReduceError

-- The loop of `decode_reduce`, `while k > 0`, on fuel.
unfoldable pub reduce_loop : ℕ → List ℕ → ℕ → Scalar → Result ReduceError Scalar
unfolding decode montymul add_mod
reduce_loop fuel buf zero acc = ok acc
reduce_loop zero buf (suc k) acc = err out_of_fuel
reduce_loop (suc fuel) buf (suc k) acc = do
  b ← unwrap (decode (take 39 (drop (suc k - 39) buf)))
  reduce_loop fuel buf (suc k - 39) (add_mod (montymul acc power_632) b)

unfoldable pub decode_reduce : List ℕ → Result ReduceError Scalar
unfolding reduce_loop decode
decode_reduce buf =
    if leb (length buf) 39
    then unwrap (decode buf)
    else (let k = (length buf - 1) / 39 * 39 in
        do acc ← unwrap (decode (drop k buf)); reduce_loop k buf k acc)

-- The canonical values of five elements, without the top two bits of the last word.
unfoldable pub from_hash : List ℕ → Scalar
from_hash elements = set elements 4 ((get_or elements 4 0 * 4) % 2 ^ 64 / 4)
