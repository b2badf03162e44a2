-- ===== src/Placement/Order.antt =====
-- The comparison through two halves of a product is the comparison of the whole products.
use dstore.Prelude.{
  ℕ, ◌*◌, ◌/◌, ◌%◌, ◌^◌, ◌≡◌, Bool, true, false, not, ltb, ◌==◌, if◌then◌else◌, arith,
}
use dstore.Placement.{Member, less, mul_hi, mul_lo}

halves :
    (x y : ℕ) (tie : Bool)
    → (if not (x / 2 ^ 64 == y / 2 ^ 64)
        then ltb (y / 2 ^ 64) (x / 2 ^ 64)
        else if not (x % 2 ^ 64 == y % 2 ^ 64)
        then ltb (y % 2 ^ 64) (x % 2 ^ 64)
        else tie)
      ≡ (if ltb y x then true else if x == y then tie else false)
halves x y tie = ground arith

-- `a` ranks above `b` when its weighted score is higher, and on a tie by the smaller id.
pub less_products :
    (a b : Member) (la lb : ℕ)
    → less a b la lb ≡ (
        if ltb (b.weight * la) (a.weight * lb)
        then true
        else if a.weight * lb == b.weight * la
        then ltb a.id b.id
        else false)
unfolding less mul_hi mul_lo
less_products a b la lb = halves (a.weight * lb) (b.weight * la) (ltb a.id b.id)
