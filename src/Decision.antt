-- ===== src/Decision.antt =====
-- Decisions over compliance cases (xportra/domain/ingestion.py): their summary, their risk and the
-- actions recommended.
pub mod Cases
pub mod Services
pub mod Standing
pub mod Listing
pub mod Counts
pub mod Advice
pub mod Records
pub mod Assessment
pub mod Building
pub mod Sufficiency
pub mod Weighing
pub mod Assembly
pub mod Readiness
pub mod Balance
pub mod Information
pub mod Plan
pub mod Planning
pub mod Requests
pub mod Requesting
mod Tests
mod AssessTests
