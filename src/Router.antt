-- ===== src/Router.antt =====
-- RemCppCommon/RemRouter.hpp and RemRouter.cpp.
pub mod Send
pub mod Selection
pub mod Rootward
pub mod Topo
pub mod Relay
pub mod Report
pub mod Race
pub mod Periodic
pub mod Refusal
mod Tests
