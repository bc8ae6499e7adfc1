-- ===== src/Judge.antt =====
-- src/judge_task.cpp, src/mimic_jthread.cpp and src/mimic_judge.cpp: the judge, which compares the
-- requests that the executors send to a backend, sends one of them on, and answers them all.
pub mod State
pub mod Compare
pub mod Decide
pub mod Analyse
pub mod Respond
pub mod Process
pub mod Thread
pub mod Front
pub mod Keys
pub mod Sound
pub mod Timeout
pub mod Life
mod Tests
pub mod Heard
pub mod Protocol
