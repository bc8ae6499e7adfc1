-- ===== src/Proxy.antt =====
-- src/proxy_task.cpp and src/mimic_proxy.cpp: one request of a client, sent to every active executor,
-- and the judgement of their answers.
pub mod Monitor
pub mod State
pub mod Compare
pub mod Judge
pub mod Analyse
pub mod Callbacks
pub mod Json
mod Tests
pub mod Convert
pub mod Front
