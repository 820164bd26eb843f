-- ===== src/Application.antt =====
-- packages/application/src: the pure decisions about orders and their risks.
pub mod OrderState
pub mod OrderReservation
pub mod RiskLimits
pub mod ExecutionGate
pub mod Commission
pub mod PaperExecutor
pub mod PriceMovement
pub mod ShadowPlan
