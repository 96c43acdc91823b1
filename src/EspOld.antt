-- ===== src/EspOld.antt =====
-- RemClientCPP/ClientEsp_OLD/ClientEsp_OLD.ino, the sketch of an ESP8266 node before the classes of
-- RemCppCommon. It keeps its children in an array and talks to one parent.
pub mod State
pub mod Children
pub mod Packets
pub mod Station
pub mod Report
pub mod Timers
pub mod Networks
pub mod Quiet
pub mod Handlers
pub mod Answers
pub mod Lifetime
pub mod Shifting
pub mod Registry
pub mod Underflow
mod Tests
