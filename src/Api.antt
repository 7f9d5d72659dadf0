-- ===== src/Api.antt =====
-- The data of frontend/src/lib/api.ts that the program computes with. The field `chain`, which has
-- one value, is left out.
use b1nary_xlayer_hackathon.Prelude.{String, Bool, Option}

pub data OptionType : Type 0 where
  call put : OptionType

-- A value of unknown type: `null` or `undefined`, a text, a number, or anything else.
pub data Unknown (N : Type 0) : Type 0 where
  absent : Unknown N
  text : String → Unknown N
  number : N → Unknown N
  other : Unknown N

pub record PriceQuote (N : Type 0) : Type 0 where
  pub option_type : OptionType
  pub strike : N
  pub expiry_days : N
  pub expiry_date : String
  pub premium : N
  pub delta : N
  pub iv : N
  pub spot : N
  pub ttl : N
  pub expires_at : N
  pub available_amount : N
  pub otoken_address : Option String
  pub signature : Option String
  pub mm_address : Option String
  pub bid_price_raw : Option N
  pub deadline : Option N
  pub quote_id : Option String
  pub max_amount_raw : Option N
  pub maker_nonce : Option N
  pub position_count : N

-- The fields that the backend may send as a number, as a text or not at all are `Unknown`.
pub record Position (N : Type 0) : Type 0 where
  pub id : String
  pub tx_hash : String
  pub tx_url : Option String
  pub explorer_url : Option String
  pub block_number : N
  pub user_address : String
  pub otoken_address : String
  pub amount : N
  pub premium : String
  pub collateral : N
  pub vault_id : Option N
  pub strike_price : Unknown N
  pub strike_usd : Unknown N
  pub strike : Unknown N
  pub expiry : N
  pub is_put : Bool
  pub is_settled : Bool
  pub settled_at : Option String
  pub settlement_tx_hash : Option String
  pub settlement_tx_url : Option String
  pub indexed_at : String
  pub settlement_type : Option String
  pub delivered_asset : Option String
  pub delivered_amount : Option N
  pub delivery_tx_hash : Option String
  pub delivery_tx_url : Option String
  pub is_itm : Option Bool
  pub expiry_price : Unknown N
  pub expiry_price_usd : Unknown N
  pub collateral_decimals : Unknown N
  pub gross_premium : String
  pub net_premium : String
  pub protocol_fee : String
  pub outcome : Option String
  pub asset : Option String
  pub group_id : Option String

pub data MarketStatus : Type 0 where
  active degraded full : MarketStatus

pub record Capacity (N : Type 0) : Type 0 where
  pub capacity : N
  pub capacity_usd : N
  pub market_open : Bool
  pub market_status : MarketStatus
  pub max_position : N
  pub mm_count : N
  pub updated_at : String
