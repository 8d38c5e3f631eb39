-- ===== src/NodeIds/Bytes.antt =====
-- flarch/src/nodeids.rs: an identifier and its 32 bytes.
use fledger.Prelude.{
  ℕ, zero, suc, ◌+◌, ◌*◌, ◌/◌, ◌%◌, ◌^◌, ◌≤◌, ◌<◌, ◌≡◌, refl, ap, ◌∙◌, sym, List, [], ◌∷◌, All,
  arith, length,
}
use native.Mathlib.Nat.{
  mod-lt, div-add-mod, mod-eq_of_lt, mul_comm, mul-add, mul_assoc, mul-le-mul_left,
  mul-add-mod_self_left, mul-add-div_right, div-eq_of_lt, mod-one, mul-add-mod_self_right,
}
use fledger.NodeIds.{U256, from_bytes, bytes, to_bytes}

length-bytes : (n : ℕ) (u : U256) → length (bytes n u) ≡ n
unfolding bytes
length-bytes zero u = refl
length-bytes (suc n) u = omega (arith, length-bytes n u)

pow_pos : (n : ℕ) → 0 < 256 ^ n
pow_pos zero = omega arith
pow_pos (suc n) = omega (arith, pow_pos n)

pow_suc : (n : ℕ) → 256 ^ suc n ≡ 256 * 256 ^ n
pow_suc n = omega arith

module _ (p u : ℕ) (positive : 0 < p) where
  abbrev digit : ℕ
  digit = u / p % 256

  below : p * digit + u % p < p * 256
  below =
      let small : digit ≤ 255 = omega (arith, mod-lt (u / p) {m = 256} (omega arith)) in
      omega (arith, mul-le-mul_left p small, mod-lt u positive)

  split : p * 256 * (u / p / 256) + (p * digit + u % p) ≡ u
  split = omega (
    arith,
    div-add-mod u p,
    ap (λ q. p * q) (div-add-mod (u / p) 256),
    mul-add p (256 * (u / p / 256)) digit,
    mul_assoc p 256 (u / p / 256),
  )

  -- The last digits of a number are its highest one and the others.
  mod_split : digit * p + u % p ≡ u % (p * 256)
  mod_split =
      ap (λ x. x + u % p) (mul_comm digit p)
      ∙ sym (mod-eq_of_lt below)
      ∙ sym (mul-add-mod_self_left (p * 256) (u / p / 256) (p * digit + u % p))
      ∙ ap (λ x. x % (p * 256)) split

from_bytes-bytes : (n : ℕ) (u : U256) → from_bytes (bytes n u) ≡ u % 256 ^ n
unfolding bytes from_bytes
from_bytes-bytes zero u = sym (mod-one u)
from_bytes-bytes (suc n) u =
    ap (λ l. u / 256 ^ n % 256 * 256 ^ l + from_bytes (bytes n u)) (length-bytes n u)
    ∙ ap (λ r. u / 256 ^ n % 256 * 256 ^ n + r) (from_bytes-bytes n u)
    ∙ mod_split (256 ^ n) u (pow_pos n)
    ∙ ap (λ q. u % q) (omega arith)

from_bytes-lt : (bs : List ℕ) → All (λ b. b < 256) bs → from_bytes bs < 256 ^ length bs
unfolding from_bytes
from_bytes-lt [] h = omega arith
from_bytes-lt (b ∷ bs) h =
    let small : b ≤ 255 = omega (arith, h.0) in
    let bound : b * 256 ^ length bs + from_bytes bs < 256 ^ suc (length bs) = omega (
      arith,
      pow_suc (length bs),
      from_bytes-lt bs h.1,
      mul-le-mul_left (256 ^ length bs) small,
      mul_comm b (256 ^ length bs),
    ) in
    bound

-- The digits above the n-th do not count.
bytes_high : (n c u : ℕ) → bytes n (c * 256 ^ n + u) ≡ bytes n u
unfolding bytes
bytes_high zero c u = refl
bytes_high (suc n) c u =
    let p = 256 ^ n in
    let same : c * 256 ^ suc n + u ≡ c * 256 * p + u =
      omega (arith, mul_assoc c 256 p, ap (λ q. c * q) (pow_suc n)) in
    ap (λ x. x / p % 256 ∷ bytes n x) same
    ∙ ap (λ d. d % 256 ∷ bytes n (c * 256 * p + u)) (mul-add-div_right (pow_pos n) (c * 256) u)
    ∙ ap (λ d. d ∷ bytes n (c * 256 * p + u)) (mul-add-mod_self_right c 256 (u / p))
    ∙ ap (λ l. u / p % 256 ∷ l) (bytes_high n (c * 256) u)

bytes-from_bytes : (bs : List ℕ) → All (λ b. b < 256) bs → bytes (length bs) (from_bytes bs) ≡ bs
unfolding bytes from_bytes
bytes-from_bytes [] h = refl
bytes-from_bytes (b ∷ bs) h =
    let p = 256 ^ length bs in
    let f = from_bytes bs in
    ap (λ l. (b * p + f) / p % 256 ∷ l) (bytes_high (length bs) b f ∙ bytes-from_bytes bs h.1)
    ∙ ap (λ d. d % 256 ∷ bs) (mul-add-div_right (pow_pos (length bs)) b f)
    ∙ ap (λ d. (b + d) % 256 ∷ bs) (div-eq_of_lt (from_bytes-lt bs h.1))
    ∙ ap (λ d. d ∷ bs) (mod-eq_of_lt (omega (arith, h.0)) ∙ omega arith)

-- The 32 bytes of an identifier, a number below 256 ^ 32, are read back as the identifier.
pub from_bytes-to_bytes : (u : U256) → u < 256 ^ 32 → from_bytes (to_bytes u) ≡ u
unfolding to_bytes
from_bytes-to_bytes u h = from_bytes-bytes 32 u ∙ mod-eq_of_lt h

-- An identifier that was read from 32 bytes has these bytes.
pub to_bytes-from_bytes :
    (bs : List ℕ) → All (λ b. b < 256) bs → length bs ≡ 32 → to_bytes (from_bytes bs) ≡ bs
unfolding to_bytes
to_bytes-from_bytes bs h e = ap (λ n. bytes n (from_bytes bs)) (sym e) ∙ bytes-from_bytes bs h

bytes-All : (n : ℕ) (u : U256) → All (λ b. b < 256) (bytes n u)
unfolding bytes
bytes-All zero u = tt
bytes-All (suc n) u = (omega (arith, mod-lt (u / 256 ^ n) {m = 256} (omega arith)), bytes-All n u)

pub length-to_bytes : (u : U256) → length (to_bytes u) ≡ 32
unfolding to_bytes
length-to_bytes u = length-bytes 32 u

pub to_bytes-All : (u : U256) → All (λ b. b < 256) (to_bytes u)
unfolding to_bytes
to_bytes-All u = bytes-All 32 u
