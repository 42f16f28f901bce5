-- ===== src/Prelude/Float64.antt =====
-- Go's float64 where it is not negative, finite and below 2^1023: a number is a multiple of 2^-1074,
-- the least one, and each operation rounds its exact result to 53 significant bits, to the even one
-- of two that are as near; no two operations are fused.
use Prim.Native.Nat.{ℕ, zero, suc, ◌+◌, ◌-◌, ◌*◌, ◌/◌, ◌%◌, ◌^◌}
use torana_edge.Prelude.Tests.{if◌then◌else◌, ltb}

abbrev pub Float64 : Type 0
Float64 = ℕ

abbrev pub one : Float64
one = 2 ^ 1074

-- How often a number is halved until it has 53 bits, with at most so many rounds.
unfoldable pub spare_bits : ℕ → ℕ → ℕ
spare_bits zero n = 0
spare_bits (suc rounds) n =
    let rest = spare_bits rounds (n / 2) in if ltb n (2 ^ 53) then 0 else rest + 1

-- The nearest whole number to a fraction.
unfoldable pub nearest : ℕ → ℕ → ℕ
nearest num den =
    let below = num / den in
    let left = 2 * (num % den) in
    if ltb left den then below else if ltb den left then below + 1 else below + below % 2

-- A fraction of 2^-1074, rounded. Numbers below 2^1023 have at most 2097 bits.
unfoldable pub round : ℕ → ℕ → Float64
unfolding spare_bits nearest
round num den = let scale = 2 ^ spare_bits 2100 (num / den) in nearest num (den * scale) * scale

-- `float64(n)`
unfoldable pub of_int : ℕ → Float64
unfolding round
of_int n = round (n * one) 1

unfoldable pub float_add : Float64 → Float64 → Float64
unfolding round
float_add a b = round (a + b) 1

-- Of a number and one that is not larger.
unfoldable pub float_sub : Float64 → Float64 → Float64
unfolding round
float_sub a b = round (a - b) 1

unfoldable pub float_mul : Float64 → Float64 → Float64
unfolding round
float_mul a b = round (a * b) one

unfoldable pub float_div : Float64 → Float64 → Float64
unfolding round
float_div a b = round (a * one) b
