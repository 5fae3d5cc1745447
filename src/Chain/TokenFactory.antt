-- ===== src/Chain/TokenFactory.antt =====
-- `TokenFactory` (packages/rujira-rs/src/token_factory.rs): a contract's own token, given by its id.
use nami_contracts.Base.{ℕ, String, Option}
use Prim.Native.String.{◌++◌ as str_append}
use nami_contracts.Chain.Types.{CosmosMsg, create_denom, mint_tokens, burn_tokens}
use nami_contracts.Chain.Environment.{Host}

-- `TokenFactory::denom`
abbrev pub token_denom : String → String
token_denom id = str_append "x/" id

-- `TokenFactory::supply`
abbrev pub supply : Host → String → Option ℕ
supply host id = host.query_supply (token_denom id)

abbrev pub create_msg : String → CosmosMsg
create_msg id = create_denom id

abbrev pub mint_msg : String → ℕ → String → CosmosMsg
mint_msg id amount recipient = mint_tokens (token_denom id) amount recipient

abbrev pub burn_msg : String → ℕ → CosmosMsg
burn_msg id amount = burn_tokens (token_denom id) amount
