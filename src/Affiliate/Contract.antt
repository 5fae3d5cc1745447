-- ===== src/Affiliate/Contract.antt =====
-- The entry points of the affiliate router (contracts/nami-affiliate/src/contract.rs, config.rs, events.rs, error.rs).
use nami_contracts.Base.{
  ℕ, String, not, Option, none, some, List, [], ◌∷◌, ◌++◌, map, leb, ◌==◌, if◌then◌else◌, str_eq,
  Outcome, ok, ◌>>=◌, ◌>>◌, ensure, or_err, traverse, is_empty, keep_if, Store, contains, insert,
  erase,
}
use nami_contracts.Numeric.{Numeric}
use nami_contracts.Chain.{
  Coin, coin, Payload, affiliate_send, CosmosMsg, bank_send, wasm_execute, text, number, Event,
  Response, no_response, add_message, Env, MessageInfo, Host,
}

pub data ContractError : Type 0 where
  std overflow divide_by_zero unauthorized insufficient_funds invalid_affiliate_call : ContractError
  invalid_affiliate_fee : (max : ℕ) → ContractError

pub record Config : Type 0 where
  pub max_affiliate_fee_bps : ℕ

-- What the storage of the contract holds.
pub record Router : Type 0 where
  pub config : Config
  pub whitelist : Store (Unit {0})

pub record InstantiateMsg : Type 0 where
  pub max_affiliate_fee_bps : ℕ
  pub whitelist : Option (List String)

pub data ExecuteMsg : Type 0 where
  execute_call :
      (contract_addr : String) (msg : Payload) (affiliate : Option (String × ℕ)) → ExecuteMsg
  send : (sender : String) → ExecuteMsg

pub data SudoMsg : Type 0 where
  add_whitelisted remove_whitelisted : (addr : String) → SudoMsg
  update_config : (max_affiliate_fee_bps : ℕ) → SudoMsg

-- `Config::validate`
unfoldable pub validate : Config → Outcome ContractError (Unit {0})
validate c = ensure (leb c.max_affiliate_fee_bps 10_000) (invalid_affiliate_fee 10_000)

-- `Config::update`
unfoldable pub update : ℕ → Config → Outcome ContractError Config
update bps c = do let c' : Config = record { max_affiliate_fee_bps = bps }; validate c'; ok c'

unfoldable pub execute_event : String → Option (String × ℕ) → Event
execute_event contract_addr (some (addr, bps)) = record {
  kind = "nami-affiliate-execute";
  attributes =
      ("contract_addr", text contract_addr) ∷ ("affiliate", text addr) ∷ ("bps", number bps) ∷ [];
}
execute_event contract_addr none = record {
  kind = "nami-affiliate-execute";
  attributes =
      ("contract_addr", text contract_addr) ∷ ("affiliate", text "") ∷ ("bps", text "") ∷ [];
}

-- `WHITELIST.save` of a validated address.
unfoldable pub admit : Host → String → Store (Unit {0}) → Outcome ContractError (Store (Unit {0}))
admit host addr whitelist = do
  valid ← or_err (host.addr_validate addr) std
  ok (insert valid tt whitelist)

unfoldable pub admit_all :
    Host → List String → Store (Unit {0}) → Outcome ContractError (Store (Unit {0}))
admit_all host [] whitelist = ok whitelist
admit_all host (addr ∷ addrs) whitelist = admit host addr whitelist >>= admit_all host addrs

unfoldable pub instantiate : Host → InstantiateMsg → Outcome ContractError (Response × Router)
instantiate host msg = do
  let config : Config = record { max_affiliate_fee_bps = msg.max_affiliate_fee_bps }
  validate config
  whitelist ← admit_all host (elim msg.whitelist [ none ↦ [] | some addrs ↦ addrs ]) []
  ok (no_response, record { config = config; whitelist = whitelist })

module _ ⦃cw : Numeric⦄ where
  open cw use {uint_sub, uint_mul, uint_div}

  -- The net coin and the fee coin of a coin that was sent.
  unfoldable pub split_coin : ℕ → Coin → Outcome ContractError (Coin × Coin)
  split_coin bps c = do
    product ← or_err (uint_mul c.amount bps) overflow
    fee ← or_err (uint_div product 10_000) divide_by_zero
    net ← or_err (uint_sub c.amount fee) overflow
    ok (coin net c.denom, coin fee c.denom)

  -- The funds to forward, and the message that pays the affiliate where there is one to send.
  unfoldable pub charge :
      Config → List Coin → Option (String × ℕ) → Outcome ContractError (List Coin × List CosmosMsg)
  charge config sent none = ok (sent, [])
  charge config sent (some (addr, bps)) = do
    ensure (leb bps config.max_affiliate_fee_bps)
        (invalid_affiliate_fee config.max_affiliate_fee_bps)
    pairs ← traverse (split_coin bps) sent
    let fees = keep_if (λ (c : Coin). not (c.amount == 0)) (map (λ p. p.1) pairs)
    ok (map (λ p. p.0) pairs, (if is_empty fees then [] else bank_send addr fees ∷ []))

  unfoldable pub execute :
      Host → Env → MessageInfo → ExecuteMsg → Router → Outcome ContractError Response
  execute host env info (execute_call contract_addr msg affiliate) r = do
    ensure (not (is_empty info.funds)) insufficient_funds
    addr ← or_err (host.addr_validate contract_addr) std
    ensure (contains addr r.whitelist) unauthorized
    (net_funds, fee_msgs) ← charge r.config info.funds affiliate
    ok (record {
      messages =
          fee_msgs
          ++ wasm_execute contract_addr msg net_funds
            ∷ wasm_execute env.contract_address (affiliate_send info.sender) []
            ∷ [];
      events = execute_event contract_addr affiliate ∷ [];
    })
  execute host env info (send sender) r = do
    ensure (str_eq info.sender env.contract_address) unauthorized
    balances ← or_err (host.query_all_balances env.contract_address) std
    ensure (not (is_empty balances)) invalid_affiliate_call
    ok (add_message (bank_send sender balances) no_response)

unfoldable pub sudo : Host → SudoMsg → Router → Outcome ContractError (Response × Router)
sudo host (add_whitelisted addr) r = do
  whitelist ← admit host addr r.whitelist
  ok (no_response, record r { whitelist = whitelist })
sudo host (remove_whitelisted addr) r = do
  valid ← or_err (host.addr_validate addr) std
  ok (no_response, record r { whitelist = erase valid r.whitelist })
sudo host (update_config bps) r = do
  config ← update bps r.config
  ok (no_response, record r { config = config })
