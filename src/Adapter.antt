-- ===== src/Adapter.antt =====
-- The dusk-adapter package: typescript/packages/dusk-adapter/src.
pub mod Bytes
pub mod Values
pub mod Hex
pub mod Contract
pub mod Lock
pub mod Envelope
pub mod Pubkeys
pub mod Resolution
pub mod TransferFees
pub mod Codec
pub mod Liquidation
