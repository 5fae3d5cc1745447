-- ===== src/Chain/Transfers.antt =====
-- What messages take out of a contract.
use nami_contracts.Base.{
  ℕ, ◌+◌, String, ◌≡◌, List, [], ◌∷◌, ◌++◌, arith, if◌then◌else◌, str_eq, str_eq_iff, sum_by,
}
use nami_contracts.Chain.Types.{
  Coin, coins, CosmosMsg, bank_send, wasm_execute, create_denom, mint_tokens, burn_tokens,
}

-- The amount of a denom among coins.
abbrev pub total_of : String → List Coin → ℕ
total_of denom [] = 0
total_of denom (c ∷ cs) = (if str_eq c.denom denom then c.amount else 0) + total_of denom cs

-- The amount of a denom that a message takes out of the contract.
abbrev pub sent_by : String → CosmosMsg → ℕ
sent_by denom (bank_send to amount) = total_of denom amount
sent_by denom (wasm_execute addr msg funds) = total_of denom funds
sent_by denom (create_denom id) = 0
sent_by denom (mint_tokens d amount to) = 0
sent_by denom (burn_tokens d amount) = 0

abbrev pub sent : String → List CosmosMsg → ℕ
sent denom = sum_by (sent_by denom)

-- The amount of a denom that a message burns.
abbrev pub burnt_by : String → CosmosMsg → ℕ
burnt_by denom (bank_send to amount) = 0
burnt_by denom (wasm_execute addr msg funds) = 0
burnt_by denom (create_denom id) = 0
burnt_by denom (mint_tokens d amount to) = 0
burnt_by denom (burn_tokens d amount) = if str_eq d denom then amount else 0

abbrev pub burnt : String → List CosmosMsg → ℕ
burnt denom = sum_by (burnt_by denom)

pub total_of-coins : (denom : String) (amount : ℕ) → total_of denom (coins amount denom) ≡ amount
total_of-coins denom amount = ground (arith, str_eq_iff denom denom)

pub sent_append :
    (denom : String) (xs ys : List CosmosMsg)
    → sent denom (xs ++ ys) ≡ sent denom xs + sent denom ys
sent_append denom [] ys = omega arith
sent_append denom (x ∷ xs) ys = omega (arith, sent_append denom xs ys)
