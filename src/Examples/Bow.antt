-- ===== src/Examples/Bow.antt =====
-- The pools of the exchange on concrete reserves.
use nami_contracts.Base.{◌+◌, ◌≡◌, refl, true, false, none, some, [], ◌∷◌, arith, str_eq_iff, ok}
use nami_contracts.Numeric.{reference, reference-IsNumeric}
use nami_contracts.Chain.{coin, MessageInfo, Response}
use nami_contracts.Examples.Sample.{sample, sample_env}
use nami_contracts.Bow.State.{XykState, from_stored, next_reserve, swap, swap_reserve, price, set}
use nami_contracts.Bow.Xyk.{
  Xyk, validate as xyk_validate, orient, quoted, QuoteRequest, QuoteResponse, working_state,
  response_of, sized_response, quote_of, quote, validate_swap, load_state as xyk_load_state,
  deposit as xyk_deposit, shares_minted, first_shares,
}
use nami_contracts.Bow.Strategy.{
  strategy_xyk, state_xyk, validate, load_state, deposit, validate_swap as validate_strategy,
}
use nami_contracts.Bow.Contract.{
  Contract, instantiate, check_config, execute, execute_deposit, load, save, deposit_response,
  event_deposit, msg_deposit,
}
use nami_contracts.Bow.Swaps.{IsBalanced}
use nami_contracts.Bow.Runs.{Quotes, first, next, responses_honoured}
use nami_contracts.Bow.Reach.{instantiated, executed, IsCovered, reserves_cover_shares}
use nami_contracts.Bow.Storage.{swapped, load-save}
use nami_contracts.Bow.Denoms.{denoms_unchecked}

abbrev pool : Xyk
pool = record {
  x = "btc";
  y = "usdc";
  step = 10_000_000_000_000_000;
  min_quote = 1000;
  fee = 2_000_000_000_000_000;
}

abbrev reserves : XykState
reserves = record { x = 1_000_000; y = 4_000_000; k = 4_000_000_000_000; shares = 2_000_000 }

abbrev after_swap : XykState
after_swap = record { x = 1_010_000; y = 3_960_397; k = 4_000_000_970_000; shares = 2_000_000 }

reserves-IsBalanced : IsBalanced reserves
reserves-IsBalanced = record { x_fits = omega arith; y_fits = omega arith; k_is = refl }

abbrev first_request : QuoteRequest
first_request = record {
  min_price = none;
  offer_denom = "btc";
  ask_denom = "usdc";
  data_blob = none;
}

abbrev first_response : QuoteResponse
first_response = record {
  price = 3_952_300_000_000_000_000;
  size = 39_523;
  data_blob = some (quoted after_swap);
}

first_quote : quote pool reserves first_request ≡ ok (some first_response)
unfolding quote working_state orient quote_of price swap swap_reserve next_reserve sized_response
    response_of
first_quote = refl

first_state : working_state pool reserves first_request ≡ ok reserves
unfolding working_state orient
first_state = refl

abbrev second_request : QuoteRequest
second_request = record first_request { data_blob = some (quoted after_swap) }

abbrev second_response : QuoteResponse
second_response = record {
  price = 3874455445544554455;
  size = 39132;
  data_blob =
      some (quoted (record { x = 1020100; y = 3921186; k = 4000001838600; shares = 2_000_000 }));
}

second_quote : quote pool reserves second_request ≡ ok (some second_response)
unfolding quote working_state orient quote_of price swap swap_reserve next_reserve sized_response
    response_of
second_quote = refl

second_state : working_state pool reserves second_request ≡ ok after_swap
unfolding working_state orient
second_state = refl

quote_run :
    Quotes pool reserves "btc" second_response.data_blob (0 + 10_000 + 10_100) (0 + 39_523 + 39132)
quote_run =
    next second_request (next first_request first refl refl first_state refl first_quote) refl refl
      second_state refl second_quote

responses_honoured_example :
    (t : XykState) × (validate_swap pool reserves (coin 20_100 "btc") (coin 78655 "usdc")
      ≡ ok (tt, t))
unfolding orient
responses_honoured_example =
    responses_honoured reference-IsNumeric pool reserves "btc" "usdc" reserves-IsBalanced
      (omega arith) (omega arith) quote_run

abbrev deposited : MessageInfo
deposited = record { sender = "alice"; funds = coin 1_000_000 "btc" ∷ coin 4_000_000 "usdc" ∷ [] }

made :
    (r : Response) × (self : Contract) × (instantiate (strategy_xyk pool) ≡ ok (r, self))
    × (self ≡ record { config = record { strategy = strategy_xyk pool }; stored = none })
unfolding instantiate check_config validate xyk_validate
made = (_, _, refl, refl)

filled :
    (r : Response) × (next : Contract) × (execute sample sample_env made.1 deposited
        (msg_deposit none none)
      ≡ ok (r, next))
    × (next.stored ≡ some (1_000_000, 4_000_000, 2_000_000))
unfolding made execute execute_deposit load load_state xyk_load_state from_stored deposit
    xyk_deposit shares_minted first_shares set deposit_response event_deposit
filled = (_, _, refl, refl)

reserves_cover_shares_example : IsCovered filled.1.stored
reserves_cover_shares_example = reserves_cover_shares reference-IsNumeric sample (
    executed sample_env deposited (msg_deposit none none) (instantiated (strategy_xyk pool) made.2)
      filled.2)

paid_in_x :
    validate_swap pool reserves (coin 10_000 "btc") (coin 39_000 "usdc") ≡ ok (tt, after_swap)
unfolding validate_swap orient swap swap_reserve next_reserve
paid_in_x = refl

loaded : load filled.1 ≡ ok (state_xyk reserves)
unfolding made filled execute execute_deposit load load_state xyk_load_state from_stored deposit
    xyk_deposit shares_minted first_shares set deposit_response event_deposit
loaded = refl

swapped_on :
    validate_strategy filled.1.config.strategy
      (state_xyk reserves)
      (coin 10_000 "btc")
      (coin 39_000 "usdc")
    ≡ ok (tt, state_xyk after_swap)
unfolding made filled execute execute_deposit load load_state xyk_load_state from_stored deposit
    xyk_deposit shares_minted first_shares set deposit_response event_deposit validate_strategy
    validate_swap orient swap swap_reserve next_reserve
swapped_on = refl

load-save_example : load (save filled.1 (state_xyk after_swap)) ≡ ok (state_xyk after_swap)
load-save_example =
    load-save reference-IsNumeric sample
      (executed sample_env deposited (msg_deposit none none)
        (instantiated (strategy_xyk pool) made.2) filled.2)
      loaded (swapped (coin 10_000 "btc") (coin 39_000 "usdc") swapped_on)

denoms_unchecked_example :
    validate_swap pool reserves (coin 10_000 "dust") (coin 39_000 "eth") ≡ ok (tt, after_swap)
denoms_unchecked_example =
    denoms_unchecked pool reserves after_swap 10_000 39_000 "dust" "eth"
      (λ e. different ((str_eq_iff "btc" "usdc").1 e))
      (λ e. different ((str_eq_iff "dust" "usdc").1 e)) paid_in_x
  where
    different : false ≡ true → ⊥
    different h = cc
