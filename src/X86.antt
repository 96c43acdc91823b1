-- ===== src/X86.antt =====
-- The Linux build: RemCppCommon/X86_64, over the libsocket library.
pub mod Listener
pub mod Client
pub mod Server
pub mod ListController
pub mod Receive
pub mod Accept
pub mod Connecting
pub mod Opening
pub mod Serving
