-- ===== src/Tests.antt =====
-- Concrete states and requests, and the theorems applied to them.
mod Fixtures
mod DaoWitnesses
mod Authors
mod HandlerWitnesses
mod ImportWitnesses
mod JobWitnesses
mod LimiterWitnesses
mod ReadWitnesses
mod RenameWitnesses
mod UserTests
