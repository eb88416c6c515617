-- ===== src/Logstructured.antt =====
-- pkg/logstructured: the backend over a log of events.
pub mod Log
pub mod Store
pub mod Lawful
pub mod Races
pub mod RacesOfKeys
pub mod Examples
pub mod Watch
