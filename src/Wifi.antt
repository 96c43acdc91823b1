-- ===== src/Wifi.antt =====
-- The ESP8266 build's connection controller, RemCppCommon/ESP8266/SimpleWiFiScanner.
pub mod State
pub mod Scan
pub mod Sorting
pub mod Station
pub mod Termination
pub mod Collecting
pub mod Choice
pub mod Strongest
pub mod Connection
pub mod Phases
pub mod Lifetime
mod Tests
