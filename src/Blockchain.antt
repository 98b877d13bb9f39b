-- ===== src/Blockchain.antt =====
-- src/core/blockchain: how charges reach the ledger.
pub mod NoncePool
pub mod RpcClient
pub mod TxManager
pub mod Listener
pub mod Fees
pub mod EventBus
pub mod Balance
mod Tests
