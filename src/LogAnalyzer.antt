-- ===== src/LogAnalyzer.antt =====
-- hw4: the log analyser, a manager thread and worker threads around a bounded buffer.
pub mod Buffer
pub mod Manager
pub mod Worker
