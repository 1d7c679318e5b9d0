-- ===== src/Station.antt =====
-- hw3: the ground station, its queue of satellite requests and its threads.
pub mod Queue
pub mod System
