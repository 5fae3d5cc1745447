-- ===== src/EntryAdapter/Flows.antt =====
-- What the adapter sends out in each step.
use nami_contracts.Base.{
  ℕ, ◌+◌, String, ◌≡◌, sym, ap, subst, ◌∙◌, true, Option, none, some, List, [], ◌∷◌, ◌++◌, arith,
  ◌==◌, if◌then◌else◌, str_eq, str_eq_iff, ok, ensure, or_err, or_panic, >>=-eq-ok, ok-injective,
  ensure-eq-ok, or_err-eq-ok, or_panic-eq-ok, traverse, All, sum_by, Pairs, traverse-Pairs,
}
use nami_contracts.Numeric.{Numeric, IsNumeric, uint_add-eq-some}
use mathlib.Core.Option.{some-injective}
use nami_contracts.Chain.{
  Coin, SwapEntry, ThenType, then_deposit, then_swap, then_send, CosmosMsg, Response, Env,
  MessageInfo, Host, IsHost, total_of, total_of-coins, sent, sent_by, sent_append,
}
use nami_contracts.EntryAdapter.Status
use nami_contracts.EntryAdapter.Status.{SwapContracts}
use nami_contracts.EntryAdapter.Contract.{
  Adapter, deposit, execute, run_step, swap_all, swap_back, send_back, self_then,
}
use nami_contracts.EntryAdapter.Messages.{
  swap_msg-sends, IsPurchase, IsSale, swap_msg-IsSwapOf, each-sends, send_back-sends,
  swap_back-sends, swap_back-IsSale, IsEnough, traverse-IsEnough,
}

sent_then :
    (denom : String) (msgs : List CosmosMsg) (env : Env) (step : ThenType)
    → sent denom (msgs ++ self_then env step ∷ []) ≡ sent denom msgs
sent_then denom msgs env step = omega (arith, sent_append denom msgs (self_then env step ∷ []))

same_total :
    (amount total asked : ℕ) → (amount == total) ≡ true → total ≡ 0 + asked → amount ≡ asked
same_total amount total asked h e = ground arith

-- The amounts of the entries.
abbrev pub asked : List SwapEntry → ℕ
asked = sum_by (λ (e : SwapEntry). e.amount)

swap_part :
    (acc acc' amount rest total : ℕ) (quote : String) (msg : CosmosMsg) (msgs : List CosmosMsg)
    → sent_by quote msg ≡ (if str_eq quote quote then amount else 0)
    → acc' ≡ acc + amount
    → total ≡ acc' + rest
    → sent quote msgs ≡ rest
    → (total ≡ acc + (amount + rest)) × (sent quote (msg ∷ msgs) ≡ amount + rest)
swap_part acc acc' amount rest total quote msg msgs h1 h2 h3 h4 =
    ground (arith, str_eq_iff quote quote)

module _ ⦃cw : Numeric⦄ (laws : IsNumeric cw) where
  swap_all-sends :
      (m : SwapContracts) (quote : String) (acc : ℕ) (es : List SwapEntry) {r : ℕ × List CosmosMsg}
      → swap_all m quote acc es ≡ ok r
      → (r.0 ≡ acc + asked es) × (sent quote r.1 ≡ asked es)
  unfolding swap_all
  swap_all-sends m quote acc [] h = ground arith
  swap_all-sends m quote acc (e ∷ es) h =
      let (msg, e1, h1) =
        >>=-eq-ok
          (Status.swap_msg m e.denom
            (record { denom = quote; amount = e.amount; min_return = e.min_return }) none)
          _ h in
      let (acc', e2, h2) = >>=-eq-ok (or_panic (cw.uint_add acc e.amount)) _ h1 in
      let (rest, e3, h3) = >>=-eq-ok (swap_all m quote acc' es) _ h2 in
      let one =
        swap_msg-sends m e.denom quote
          (record { denom = quote; amount = e.amount; min_return = e.min_return }) none e1 in
      let next = (uint_add-eq-some laws acc e.amount (or_panic-eq-ok _ e2)).0 in
      let (sum, out) = swap_all-sends m quote acc' es e3 in
      subst
        (λ (r : ℕ × List CosmosMsg).
          (r.0 ≡ acc + asked (e ∷ es)) × (sent quote r.1 ≡ asked (e ∷ es)))
        (ok-injective h3)
        (swap_part acc acc' e.amount (asked es) rest.0 quote msg rest.1 one next sum out)

  swap_all-IsPurchase :
      (m : SwapContracts) (quote : String) (acc : ℕ) (es : List SwapEntry) {r : ℕ × List CosmosMsg}
      → swap_all m quote acc es ≡ ok r
      → Pairs (IsPurchase m quote) es r.1
  unfolding swap_all
  swap_all-IsPurchase m quote acc [] h =
      subst (λ (r : ℕ × List CosmosMsg). Pairs (IsPurchase m quote) [] r.1) (ok-injective h) tt
  swap_all-IsPurchase m quote acc (e ∷ es) h =
      let (msg, e1, h1) =
        >>=-eq-ok
          (Status.swap_msg m e.denom
            (record { denom = quote; amount = e.amount; min_return = e.min_return }) none)
          _ h in
      let (acc', e2, h2) = >>=-eq-ok (or_panic (cw.uint_add acc e.amount)) _ h1 in
      let (rest, e3, h3) = >>=-eq-ok (swap_all m quote acc' es) _ h2 in
      subst (λ (r : ℕ × List CosmosMsg). Pairs (IsPurchase m quote) (e ∷ es) r.1) (ok-injective h3)
        (swap_msg-IsSwapOf m e.denom _ e1, swap_all-IsPurchase m quote acc' es e3)

  module _ (host : Host) (env : Env) where
    -- A deposit goes through only where its swaps ask for exactly the coins that came in. It sends
    -- them all: the quote coins of each swap to the swap contract that is stored for the swap's denom,
    -- with its least return, and no other message but the one for its own later step, the deposit.
    pub deposit_spends :
        IsHost host
        → (info : MessageInfo) (index : String) (swaps : List SwapEntry) (a : Adapter)
          {r : Response}
        → execute host env info (deposit index swaps) a ≡ ok r
        → (total_of a.config.quote_denom info.funds ≡ asked swaps)
          × (sent a.config.quote_denom r.messages ≡ asked swaps)
          × ((msgs : List CosmosMsg) × (r.messages
                ≡ msgs ++ self_then env (then_deposit info.sender index) ∷ [])
              × Pairs (IsPurchase a.swap_contracts a.config.quote_denom) swaps msgs)
    unfolding execute
    deposit_spends host_laws info index swaps a h =
        let (amount, e1, h1) =
          >>=-eq-ok (or_err (host.must_pay info.funds a.config.quote_denom) _) _ h in
        let (all, e2, h2) =
          >>=-eq-ok (swap_all a.swap_contracts a.config.quote_denom 0 swaps) _ h1 in
        let (t, e3, h3) = >>=-eq-ok (ensure (amount == all.0) _) _ h2 in
        let (sum, out) = swap_all-sends a.swap_contracts a.config.quote_denom 0 swaps e2 in
        let paid =
          (host_laws.must_pay_lem info.funds a.config.quote_denom amount (or_err-eq-ok _ _ e1)).0 in
        let messages = ap (λ (x : Response). x.messages) (sym (ok-injective h3)) in
        (
          rw paid (
              total_of-coins a.config.quote_denom amount
              ∙ same_total amount all.0 (asked swaps) (ensure-eq-ok _ _ e3) sum),
          rw messages
              (sent_then a.config.quote_denom all.1 env (then_deposit info.sender index) ∙ out),
          (all.1, messages, swap_all-IsPurchase a.swap_contracts a.config.quote_denom 0 swaps e2),
        )

    -- The last step sends the sender every coin that the adapter holds, each of at least `min_return`.
    pub send_pays :
        (sender : String) (min_return : Option ℕ) (a : Adapter) (held : List Coin) {r : Response}
        → host.query_all_balances env.contract_address ≡ some held
        → run_step host env (then_send sender min_return) a ≡ ok r
        → ((denom : String) → sent denom r.messages ≡ total_of denom held)
          × All (λ (c : Coin). IsEnough min_return c.amount) held
    unfolding run_step
    send_pays sender min_return a held own h =
        let (cs, e1, h1) =
          >>=-eq-ok (or_err (host.query_all_balances env.contract_address) _) _ h in
        let (msgs, e2, h2) = >>=-eq-ok (traverse (send_back sender min_return) cs) _ h1 in
        let same : cs ≡ held = some-injective _ _ (sym (or_err-eq-ok _ _ e1) ∙ own) in
        let messages = ap (λ (x : Response). x.messages) (sym (ok-injective h2)) in
        (
          λ denom. rw messages (
              each-sends (send_back sender min_return) denom
                (send_back-sends sender min_return denom) cs e2
              ∙ ap (total_of denom) same),
          subst (All (λ (c : Coin). IsEnough min_return c.amount)) same
              (traverse-IsEnough sender min_return cs e2),
        )

    -- The step after a withdrawal sends every coin that the adapter holds to the swap contract that is
    -- stored for its denom, and no other message but the one for its own last step, the payment with
    -- the least return that was asked for.
    pub swap_sends :
        (sender : String) (min_return : Option ℕ) (a : Adapter) (held : List Coin) {r : Response}
        → host.query_all_balances env.contract_address ≡ some held
        → run_step host env (then_swap sender min_return) a ≡ ok r
        → ((denom : String) → sent denom r.messages ≡ total_of denom held)
          × ((msgs : List CosmosMsg) × (r.messages
                ≡ msgs ++ self_then env (then_send sender min_return) ∷ [])
              × Pairs (IsSale a.swap_contracts) held msgs)
    unfolding run_step
    swap_sends sender min_return a held own h =
        let (cs, e1, h1) =
          >>=-eq-ok (or_err (host.query_all_balances env.contract_address) _) _ h in
        let (msgs, e2, h2) = >>=-eq-ok (traverse (swap_back a.swap_contracts) cs) _ h1 in
        let same : cs ≡ held = some-injective _ _ (sym (or_err-eq-ok _ _ e1) ∙ own) in
        let messages = ap (λ (x : Response). x.messages) (sym (ok-injective h2)) in
        (
          λ denom. rw messages (
              sent_then denom msgs env (then_send sender min_return)
              ∙ each-sends (swap_back a.swap_contracts) denom
                  (swap_back-sends a.swap_contracts denom) cs e2
              ∙ ap (total_of denom) same),
          (
            msgs,
            messages,
            subst (λ (xs : List Coin). Pairs (IsSale a.swap_contracts) xs msgs) same
                (traverse-Pairs (swap_back a.swap_contracts) (swap_back-IsSale a.swap_contracts) cs
                  e2),
          ),
        )
