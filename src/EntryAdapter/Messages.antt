-- ===== src/EntryAdapter/Messages.antt =====
-- The messages that the adapter makes of single coins: what each sends, and where.
use nami_contracts.Base.{
  ℕ, ◌≤◌, String, ◌≡◌, refl, sym, subst, true, not, Option, none, some, List, [], ◌∷◌, arith, ltb,
  if◌then◌else◌, str_eq, Outcome, ok, ensure, or_err, >>=-eq-ok, ok-injective, ensure-eq-ok,
  or_err-eq-ok, traverse, All, lookup,
}
use nami_contracts.Chain.{
  Coin, coins, wasm_execute, fin_swap, SwapEntry, CosmosMsg, total_of, sent, sent_by,
}
use nami_contracts.EntryAdapter.Errors.{ContractError}
use nami_contracts.EntryAdapter.Status
use nami_contracts.EntryAdapter.Status.{SwapContracts}
use nami_contracts.EntryAdapter.Contract.{swap_back, send_back}

pub swap_msg-sends :
    (m : SwapContracts) (key denom : String) (e : SwapEntry) (to : Option String) {msg : CosmosMsg}
    → Status.swap_msg m key e to ≡ ok msg
    → sent_by denom msg ≡ (if str_eq e.denom denom then e.amount else 0)
unfolding Status.swap_msg
swap_msg-sends m key denom e to h =
    let (addr, e1, h1) = >>=-eq-ok (or_err (lookup key m) _) _ h in
    subst (λ (x : CosmosMsg). sent_by denom x ≡ (if str_eq e.denom denom then e.amount else 0))
      (ok-injective h1) (omega arith)

-- A message that sends an entry's coin to the swap contract of a denom, on the entry's terms.
abbrev IsSwapOf : SwapContracts → String → SwapEntry → CosmosMsg → Type 0
IsSwapOf m key e msg =
    (addr : String) × (lookup key m ≡ some addr)
    × (msg
        ≡ wasm_execute addr
            (fin_swap (record { min_return = e.min_return; to = none; callback = none }))
            (coins e.amount e.denom))

-- The quote coins that an entry asks for go to the swap contract of its denom, and a coin that is
-- held goes to that of its own.
abbrev pub IsPurchase : SwapContracts → String → SwapEntry → CosmosMsg → Type 0
IsPurchase m quote e msg =
    IsSwapOf m e.denom (record { denom = quote; amount = e.amount; min_return = e.min_return }) msg

abbrev pub IsSale : SwapContracts → Coin → CosmosMsg → Type 0
IsSale m c msg =
    IsSwapOf m c.denom (record { denom = c.denom; amount = c.amount; min_return = none }) msg

pub swap_msg-IsSwapOf :
    (m : SwapContracts) (key : String) (e : SwapEntry) {msg : CosmosMsg}
    → Status.swap_msg m key e none ≡ ok msg
    → IsSwapOf m key e msg
unfolding Status.swap_msg
swap_msg-IsSwapOf m key e h =
    let (addr, e1, h1) = >>=-eq-ok (or_err (lookup key m) _) _ h in
    (addr, or_err-eq-ok _ _ e1, sym (ok-injective h1))

-- A step that makes a message of each coin sends what the coins hold.
pub each-sends :
    (f : Coin → Outcome ContractError CosmosMsg) (denom : String)
    → ((c : Coin) (msg : CosmosMsg)
        → f c ≡ ok msg
        → sent_by denom msg ≡ (if str_eq c.denom denom then c.amount else 0))
    → (cs : List Coin) {msgs : List CosmosMsg} → traverse f cs ≡ ok msgs
    → sent denom msgs ≡ total_of denom cs
unfolding traverse
each-sends f denom law [] h = ground arith
each-sends f denom law (c ∷ cs) h =
    let (msg, e1, h1) = >>=-eq-ok (f c) _ h in
    let (msgs, e2, h2) = >>=-eq-ok (traverse f cs) _ h1 in
    subst (λ (x : List CosmosMsg). sent denom x ≡ total_of denom (c ∷ cs)) (ok-injective h2)
      (rw (law c msg e1) (rw (each-sends f denom law cs e2) refl))

pub send_back-sends :
    (sender : String) (least : Option ℕ) (denom : String) (c : Coin) (msg : CosmosMsg)
    → send_back sender least c ≡ ok msg
    → sent_by denom msg ≡ (if str_eq c.denom denom then c.amount else 0)
unfolding send_back
send_back-sends sender none denom c msg h =
    subst (λ (x : CosmosMsg). sent_by denom x ≡ (if str_eq c.denom denom then c.amount else 0))
      (ok-injective h) (omega arith)
send_back-sends sender (some least) denom c msg h =
    let (t, e, h1) = >>=-eq-ok (ensure (not (ltb c.amount least)) _) _ h in
    subst (λ (x : CosmosMsg). sent_by denom x ≡ (if str_eq c.denom denom then c.amount else 0))
      (ok-injective h1) (omega arith)

pub swap_back-sends :
    (m : SwapContracts) (denom : String) (c : Coin) (msg : CosmosMsg)
    → swap_back m c ≡ ok msg
    → sent_by denom msg ≡ (if str_eq c.denom denom then c.amount else 0)
unfolding swap_back
swap_back-sends m denom c msg h = swap_msg-sends m c.denom denom _ none h

pub swap_back-IsSale :
    (m : SwapContracts) (c : Coin) (msg : CosmosMsg) → swap_back m c ≡ ok msg → IsSale m c msg
unfolding swap_back
swap_back-IsSale m c msg h = swap_msg-IsSwapOf m c.denom _ h

-- An amount is at least the least return, where one is asked for.
abbrev pub IsEnough : Option ℕ → ℕ → Type 0
IsEnough none amount = Unit
IsEnough (some least) amount = least ≤ amount

not-ltb : (a b : ℕ) → not (ltb a b) ≡ true → b ≤ a
not-ltb a b h = ground arith

send_back-IsEnough :
    (sender : String) (least : Option ℕ) (c : Coin) (msg : CosmosMsg)
    → send_back sender least c ≡ ok msg
    → IsEnough least c.amount
unfolding send_back
send_back-IsEnough sender none c msg h = tt
send_back-IsEnough sender (some least) c msg h =
    let (t, e, h1) = >>=-eq-ok (ensure (not (ltb c.amount least)) _) _ h in
    not-ltb c.amount least (ensure-eq-ok _ _ e)

pub traverse-IsEnough :
    (sender : String) (least : Option ℕ) (cs : List Coin) {msgs : List CosmosMsg}
    → traverse (send_back sender least) cs ≡ ok msgs
    → All (λ (c : Coin). IsEnough least c.amount) cs
unfolding traverse
traverse-IsEnough sender least [] h = tt
traverse-IsEnough sender least (c ∷ cs) h =
    let (msg, e1, h1) = >>=-eq-ok (send_back sender least c) _ h in
    let (msgs, e2, h2) = >>=-eq-ok (traverse (send_back sender least) cs) _ h1 in
    (send_back-IsEnough sender least c msg e1, traverse-IsEnough sender least cs e2)
