-- ===== src/Tests.antt =====
-- The theorems at concrete inputs.
mod SwimTests
mod ChainTests
mod PolicyTests
mod BuilderTests
mod MultiplexerTests
mod EventsTests
mod DelegateTests
mod StoreTests
mod QueryTests
mod PoolTests
