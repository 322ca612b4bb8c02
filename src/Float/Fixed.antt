-- ===== src/Float/Fixed.antt =====
-- Numbers with a fixed point, of six digits: a concrete instance of the parameter `Float`, on which
-- the choice of a lord is tried.
use etronium_scdr.Prelude.{
  ℕ, zero, suc, ◌+◌, ◌-◌, ◌*◌, ◌/◌, ◌^◌, ◌≡◌, ℤ, pos, negsuc, ◌+ℤ◌, ltb_ℤ, pos_part, neg_part, Bool,
  true, false, arith, ltb,
}
use etronium_scdr.Float.{Float}

abbrev negate : ℤ → ℤ
negate (pos zero) = pos zero
negate (pos (suc n)) = negsuc n
negate (negsuc n) = pos (n + 1)

abbrev size : ℤ → ℕ
size x = pos_part x + neg_part x

abbrev is_negative : ℤ → Bool
is_negative x = ltb 0 (neg_part x)

-- a size with the sign that two factors give it
abbrev signed : Bool → Bool → ℕ → ℤ
signed true false n = negate (pos n)
signed false true n = negate (pos n)
signed _ _ n = pos n

abbrev unit : ℕ
unit = 10 ^ 6

pub ltb_ℤ_irrefl : (a : ℤ) → ltb_ℤ a a ≡ false
ltb_ℤ_irrefl a = ground arith

pub ltb_ℤ_trans : (a b c : ℤ) → ltb_ℤ a b ≡ true → ltb_ℤ b c ≡ true → ltb_ℤ a c ≡ true
ltb_ℤ_trans a b c h k = ground arith

abbrev pub fixed : Float
fixed = record {
  F = ℤ;
  of_int = λ x. signed (is_negative x) false (size x * unit);
  lit = λ m k. pos (m * unit / 10 ^ k);
  neg_one = negsuc (unit - 1);
  add = λ a b. a +ℤ b;
  sub = λ a b. a +ℤ negate b;
  mul = λ a b. signed (is_negative a) (is_negative b) (size a * size b / unit);
  div = λ a b. signed (is_negative a) (is_negative b) (size a * unit / size b);
  lt = ltb_ℤ;
  lt_irrefl = ltb_ℤ_irrefl;
  lt_trans = ltb_ℤ_trans;
}
