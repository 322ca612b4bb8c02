-- ===== src/Float.antt =====
-- Go's float64, which the language does not have: the operations that the scores use, as a
-- parameter. The laws are IEEE 754's for `<`, and hold of NaN too.
pub mod Fixed
use etronium_scdr.Prelude.{ℕ, ◌≡◌, ℤ, Bool, true, false}

pub record Float : Type 1 where
  pub F : Type 0
  pub of_int : ℤ → F
  -- the literal m / 10 ^ k
  pub lit : ℕ → ℕ → F
  pub neg_one : F
  pub add : F → F → F
  pub sub : F → F → F
  pub mul : F → F → F
  pub div : F → F → F
  pub lt : F → F → Bool
  pub lt_irrefl : (a : F) → lt a a ≡ false
  pub lt_trans : (a b c : F) → lt a b ≡ true → lt b c ≡ true → lt a c ≡ true
