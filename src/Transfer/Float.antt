-- ===== src/Transfer/Float.antt =====
-- `math.Ceil(float64(a) / float64(b))` of two integers, as the chunks of a download are counted: the
-- numbers keep 53 significant bits, and a quotient is rounded to the nearest, or to the even one of
-- two that are as near.
use native.Mathlib.Nat.{
  pow-suc, mod-lt, mul-le-mul_left, mul-le-mul_right, div-add-mod, div-le_self, div-eq_of_lt,
  div-eq_of_lt-le,
}
use apack.Base.{
  ℕ, zero, suc, ◌+◌, ◌-◌, ◌*◌, ◌/◌, ◌%◌, ◌^◌, ◌≤◌, ◌<◌, ◌≡◌, ◌⊎◌, refl, true, leb, sym, ◌∙◌, ◌&&◌,
  ◌||◌, arith, ltb, ◌==◌, if◌then◌else◌, Bool-cases, inl, inr,
}

abbrev pub mantissa : ℕ
mantissa = 9007199254740992

-- the quotient to the nearest integer, or to the even one of two
unfoldable pub round_div : ℕ → ℕ → ℕ
round_div x b =
    let q = x / b in let r = x % b in if ltb b (2 * r) || 2 * r == b && q % 2 == 1 then q + 1 else q

-- The weight of the last bit of a number that has more than 53, by doubling. An int64 has at most
-- ten bits more.
unfoldable pub unit : ℕ → ℕ → ℕ → ℕ
unit zero x u = u
unit (suc fuel) x u = let rest = unit fuel x (2 * u) in if ltb (x / u) mantissa then u else rest

-- The number of parts that the last bit of a smaller number, which is not 0, cuts a one into.
unfoldable pub scale : ℕ → ℕ → ℕ → ℕ
scale zero q s = s
scale (suc fuel) q s =
    let rest = scale fuel q (2 * s) in if ltb (q * (2 * s)) mantissa then rest else s

unfoldable pub to_float : ℕ → ℕ
to_float x = let u = unit 11 x 1 in round_div x u * u

-- A quotient between 0 and 1 stays there, and one of 2^53 or more is an integer once it is rounded.
unfoldable pub ceil_quotient : ℕ → ℕ → ℕ
ceil_quotient a b =
    let q = a / b in
    let s = scale 53 q 1 in
    let u = unit 11 q 1 in
    if a == 0
    then 0
    else if q == 0
    then 1
    else if ltb q mantissa
    then (round_div (a * s) b + s - 1) / s
    else round_div a (b * u) * u

round_div-cases :
    (x b : ℕ)
    → ((round_div x b ≡ x / b) × (2 * (x % b) ≤ b))
      ⊎ ((round_div x b ≡ x / b + 1) × (b ≤ 2 * (x % b)))
unfolding round_div
round_div-cases x b =
    elim (Bool-cases (ltb b (2 * (x % b)) || 2 * (x % b) == b && (x / b) % 2 == 1)) [
      | inl up ↦ inr (ground (arith, up), ground (arith, up))
      | inr down ↦ inl (ground (arith, down), ground (arith, down))
    ]

round_div_one : (x : ℕ) → round_div x 1 ≡ x
round_div_one x = elim (round_div-cases x 1) [
  | inl (e, _) ↦ omega (arith, e)
  | inr (_, h) ↦ absurd (omega arith)
]

pub to_float_exact : (x : ℕ) → x < mantissa → to_float x ≡ x
unfolding to_float unit
to_float_exact x h =
    let small : ltb (x / 1) mantissa ≡ true = ground arith in
    rw small (omega (arith, round_div_one x))

scale_large :
    (fuel q s : ℕ)
    → 0 < s
    → mantissa ≤ q * (2 * (s * 2 ^ fuel))
    → (0 < scale fuel q s) × (mantissa ≤ q * (2 * scale fuel q s))
unfolding scale
scale_large zero q s pos h = let one : 2 ^ 0 ≡ 1 = refl in (pos, omega (arith, (rw one at h)))
scale_large (suc fuel) q s pos h =
    let power : s * 2 ^ suc fuel ≡ 2 * s * 2 ^ fuel = rw (pow-suc 2 fuel) (omega arith) in
    let rest = scale_large fuel q (2 * s) (omega arith) (rw power at h) in
    elim (Bool-cases (ltb (q * (2 * s)) mantissa)) [
      | inl small ↦ rw (small, scale) rest
      | inr large ↦ rw (large, scale) (pos, ground (arith, large))
    ]

round_div_le : (x b m : ℕ) → 0 < b → x ≤ b * m → round_div x b ≤ m
round_div_le x b m pos h =
    let parts = div-add-mod x b in
    elim (Bool-cases (leb (m + 1) (x / b))) [
      | inl above ↦
          absurd (let l : m + 1 ≤ x / b = ground arith in omega (arith, parts, mul-le-mul_left b l))
      | inr below ↦ elim (round_div-cases x b) [
        | inl (e, _) ↦ ground (arith, e, below)
        | inr (e, up) ↦ elim (Bool-cases (x / b == m)) [
          | inl same ↦ absurd (let k : x / b ≡ m = ground arith in omega (arith, up, rw k at parts))
          | inr less ↦ ground (arith, e, below, less)
        ]
      ]
    ]

round_div_gt : (x b m : ℕ) → 0 < b → b * m + b < 2 * x - b * m → m < round_div x b
round_div_gt x b m pos h =
    let parts = div-add-mod x b in
    let bound = mod-lt x pos in
    elim (Bool-cases (leb (x / b + 1) m)) [
      | inl below ↦
          absurd (
            let l : x / b + 1 ≤ m = ground arith in
            omega (arith, parts, bound, mul-le-mul_left b l))
      | inr above ↦ elim (round_div-cases x b) [
        | inr (e, _) ↦ ground (arith, e, above)
        | inl (e, down) ↦ elim (Bool-cases (x / b == m)) [
          | inl same ↦
              absurd (let k : x / b ≡ m = ground arith in omega (arith, down, rw k at parts))
          | inr more ↦ ground (arith, e, above, more)
        ]
      ]
    ]

ceil_div : (x b m : ℕ) → 0 < b → b * m < x → x ≤ b * m + b → (x + b - 1) / b ≡ m + 1
ceil_div x b m pos h k = div-eq_of_lt-le b (omega arith) (omega arith)

-- the last bit of a quotient below 2^53 weighs less than two parts of the divisor
fine_enough :
    (a b s : ℕ) → a < mantissa → b * (a / b) + a % b ≡ a → mantissa ≤ a / b * (2 * s) → b < 2 * s
fine_enough a b s h parts large = elim (Bool-cases (leb (2 * s) b)) [
  | inr ok_ ↦ ground arith
  | inl coarse ↦
      absurd (let l : 2 * s ≤ b = ground arith in omega (arith, mul-le-mul_left (a / b) l, parts))
]

-- The ceiling of a quotient above 1 whose last bit is fine enough.
ceil_rounded :
    (a b s : ℕ) → 0 < a → 0 < b → b < 2 * s → (round_div (a * s) b + s - 1) / s ≡ (a + b - 1) / b
ceil_rounded a b s some_left pos fine =
    let m = (a - 1) / b in
    let parts = div-add-mod (a - 1) b in
    let bound = mod-lt (a - 1) pos in
    let below : b * m + 1 ≤ a = omega arith in
    let above : a ≤ b * m + b = omega arith in
    let low = mul-le-mul_right s below in
    let high = mul-le-mul_right s above in
    let least : m * s < round_div (a * s) b =
      round_div_gt (a * s) b (m * s) pos (omega (arith, low)) in
    let most : round_div (a * s) b ≤ m * s + s =
      round_div_le (a * s) b (m * s + s) pos (omega (arith, high)) in
    ceil_div (round_div (a * s) b) s m (omega arith) (omega arith) (omega arith)
    ∙ sym (ceil_div a b m pos (omega arith) above)

-- Below 2^53 the rounding of the quotient does not reach the integer below it.
pub ceil_quotient_exact : (a b : ℕ) → a < mantissa → 0 < b → ceil_quotient a b ≡ (a + b - 1) / b
unfolding ceil_quotient
ceil_quotient_exact a b h pos =
    let parts = div-add-mod a b in
    elim (Bool-cases (a == 0)) [
      | inl nothing ↦ rw nothing (sym (div-eq_of_lt (let e : a ≡ 0 = ground arith in omega arith)))
      | inr some_left ↦ elim (Bool-cases (a / b == 0)) [
        | inl less ↦
            let q : a / b ≡ 0 = ground arith in
            let e : b * 0 + a % b ≡ a = rw q at parts in
            rw (some_left, less)
              (sym (ceil_div a b 0 pos (ground arith) (omega (arith, e, mod-lt a pos))))
        | inr whole ↦
            let q : 1 ≤ a / b = ground arith in
            let small : ltb (a / b) mantissa ≡ true = ground (arith, div-le_self a b) in
            let (positive, large) = scale_large 53 (a / b) 1 (omega arith) (omega arith) in
            let s = scale 53 (a / b) 1 in
            rw (some_left, whole, small)
              (ceil_rounded a b s (ground arith) pos (fine_enough a b s h parts large))
      ]
    ]
