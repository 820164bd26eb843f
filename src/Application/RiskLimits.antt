-- ===== src/Application/RiskLimits.antt =====
-- packages/application/src/risk-limits.ts: the limits on trading and on exposure. Trade is the first of
-- its two functions, Exposure the second.
pub mod Trade
pub mod Exposure
mod Examples
use portfolio_rebalancer.Prelude.{Bool, true, false}

pub data RiskLimitStatus : Type 0 where
  ready_status blocked_status : RiskLimitStatus

-- `status === "READY"`
abbrev pub is_ready : RiskLimitStatus → Bool
is_ready ready_status = true
is_ready blocked_status = false
