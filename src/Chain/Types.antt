-- ===== src/Chain/Types.antt =====
-- Coins, messages and events, with the request types of packages/rujira-rs/src/interfaces/fin and
-- packages/nami-rs/src/interfaces.
use nami_contracts.Base.{ℕ, String, Option, List, [], ◌∷◌, ◌++◌}

pub record Coin : Type 0 where
  pub denom : String
  pub amount : ℕ

abbrev pub coin : ℕ → String → Coin
coin amount denom = record { denom = denom; amount = amount }

-- `coins`
abbrev pub coins : ℕ → String → List Coin
coins amount denom = coin amount denom ∷ []

-- `fin::Denoms`: the base and the quote denom of a trading pair.
pub record Denoms : Type 0 where
  pub base : String
  pub quote : String

-- `CallbackData`: the one callback that the index makes itself, or any other binary.
pub data Callback : Type 0 where
  after_reallocate : String → ℕ → Option ℕ → Callback
  opaque : String → Callback

pub record SwapRequest : Type 0 where
  pub min_return : Option ℕ
  pub to : Option String
  pub callback : Option Callback

pub record SwapEntry : Type 0 where
  pub denom : String
  pub amount : ℕ
  pub min_return : Option ℕ

-- `ThenType` of the entry adapter.
pub data ThenType : Type 0 where
  then_deposit : (sender index : String) → ThenType
  then_swap : (sender : String) (min_return : Option ℕ) → ThenType
  then_send : (sender : String) (min_return : Option ℕ) → ThenType

-- The messages that one contract sends to another, or to itself.
pub data Payload : Type 0 where
  fin_swap : SwapRequest → Payload
  receiver_callback : Callback → Payload
  index_deposit index_withdraw index_run : Payload
  affiliate_send : String → Payload
  adapter_then : ThenType → Payload
  binary : String → Payload

pub data CosmosMsg : Type 0 where
  bank_send : (to_address : String) (amount : List Coin) → CosmosMsg
  wasm_execute : (contract_addr : String) (msg : Payload) (funds : List Coin) → CosmosMsg
  create_denom : (id : String) → CosmosMsg
  mint_tokens : (denom : String) (amount : ℕ) (recipient : String) → CosmosMsg
  burn_tokens : (denom : String) (amount : ℕ) → CosmosMsg

-- An attribute of an event.
pub data Attribute : Type 0 where
  text : String → Attribute
  number : ℕ → Attribute
  funds : List Coin → Attribute

pub record Event : Type 0 where
  pub kind : String
  pub attributes : List (String × Attribute)

pub record Response : Type 0 where
  pub messages : List CosmosMsg
  pub events : List Event

abbrev pub no_response : Response
no_response = record { messages = []; events = [] }

abbrev pub add_message : CosmosMsg → Response → Response
add_message m r = record r { messages = r.messages ++ m ∷ [] }

abbrev pub add_messages : List CosmosMsg → Response → Response
add_messages ms r = record r { messages = r.messages ++ ms }

abbrev pub add_event : Event → Response → Response
add_event e r = record r { events = r.events ++ e ∷ [] }
