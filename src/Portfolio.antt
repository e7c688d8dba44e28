-- ===== src/Portfolio.antt =====
-- src/features/portfolio/domain/calculation: cost basis, holdings and the calculation engine.
pub mod Types
pub mod Validation
pub mod Holdings
pub mod AverageCost
pub mod LotStore
pub mod LotCostBasis
pub mod Engine
pub mod Samples
mod Tests
mod Witnesses
