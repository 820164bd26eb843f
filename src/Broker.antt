-- ===== src/Broker.antt =====
-- packages/broker/src/models.ts: what a broker returns about prices. Identifiers, symbols and times are
-- texts, as there.
use portfolio_rebalancer.Prelude.{ℤ, Text, Option, List}
use portfolio_rebalancer.Domain.Money.{Currency}
use portfolio_rebalancer.Application.ExecutionGate.{MarketCountry}

pub record BrokerObservationMetadata : Type 0 where
  pub broker_id : Text
  pub operation_id : Text
  pub request_id : Option Text
  pub http_status : ℤ
  pub rate_limit_group : Option Text
  pub received_at : Text
  pub audit_reference : Option Text

pub record BrokerReadResult (Value : Type 0) : Type 0 where
  pub value : Value
  pub metadata : BrokerObservationMetadata

pub record PriceQuote : Type 0 where
  pub market_country : MarketCountry
  pub symbol : Text
  pub price : Text
  pub currency : Currency
  pub observed_at : Option Text

pub record OrderBookLevel : Type 0 where
  pub price : Text
  pub quantity : Text

pub record OrderBookSnapshot : Type 0 where
  pub market_country : MarketCountry
  pub symbol : Text
  pub currency : Currency
  pub bids : List OrderBookLevel
  pub asks : List OrderBookLevel
  pub observed_at : Option Text
