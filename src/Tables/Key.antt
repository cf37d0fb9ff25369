-- ===== src/Tables/Key.antt =====
-- What a table asks of its keys: the test in its loops, and the number that is reduced to an index.
use cyque.Prelude.{ℕ, Bool, true, ◌≡◌, ◌↔◌}

pub record Key (K : Type 0) : Type 0 where
  pub equal : K → K → Bool
  pub hash : K → ℕ
  pub equal_iff : (a b : K) → (equal a b ≡ true) ↔ (a ≡ b)

module _ {K : Type 0} ⦃key : Key K⦄ where
  infix 50 ◌=?◌
  abbrev pub ◌=?◌ : K → K → Bool
  a =? b = key.equal a b
