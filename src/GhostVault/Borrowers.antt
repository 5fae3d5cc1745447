-- ===== src/GhostVault/Borrowers.antt =====
-- `Borrower` (testing/rujira-ghost-vault/src/borrowers.rs): what each market may borrow and has borrowed.
use nami_contracts.Base.{
  ℕ, String, Option, none, some, ltb, leb, if◌then◌else◌, Outcome, ok, err, ◌>>=◌, or_panic, Store,
  lookup, insert,
}
use nami_contracts.Numeric.{Numeric}
use nami_contracts.GhostVault.Errors.{ContractError, unauthorized_borrower, borrow_limit_reached}

pub record Borrower : Type 0 where
  pub addr : String
  pub limit : ℕ
  pub current : ℕ

-- The map `BORROWERS`: a limit and the current debt for each address.
abbrev pub Borrowers : Type 0
Borrowers = Store (ℕ × ℕ)

-- `Borrower::load`
abbrev of_entry : String → Option (ℕ × ℕ) → Outcome ContractError Borrower
of_entry addr none = err unauthorized_borrower
of_entry addr (some (limit, current)) =
    ok (record { addr = addr; limit = limit; current = current })

unfoldable pub load : Borrowers → String → Outcome ContractError Borrower
load m addr = of_entry addr (lookup addr m)

unfoldable pub save : Borrower → Borrowers → Borrowers
save b m = insert b.addr (b.limit, b.current) m

abbrev current_of : Option (ℕ × ℕ) → ℕ
current_of none = 0
current_of (some (limit, current)) = current

-- `Borrower::set`
unfoldable pub set : Borrowers → String → ℕ → Borrowers
set m addr limit = insert addr (limit, current_of (lookup addr m)) m

module _ ⦃cw : Numeric⦄ where
  open cw use {uint_add, uint_sub}

  -- `Borrower::borrow`
  unfoldable pub borrow : Borrower → ℕ → Outcome ContractError Borrower
  borrow b amount = do
    total ← or_panic (uint_add b.current amount)
    if ltb b.limit total
        then err (borrow_limit_reached b.limit)
        else do current ← or_panic (uint_add b.current amount); ok (record b { current = current })

  -- `Borrower::repay` returns the overpayment.
  unfoldable pub repay : Borrower → ℕ → Outcome ContractError (ℕ × Borrower)
  repay b amount = do
    let repaid = if leb amount b.current then amount else b.current
    current ← or_panic (uint_sub b.current repaid)
    over ← or_panic (uint_sub amount repaid)
    ok (over, record b { current = current })
