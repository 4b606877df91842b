-- ===== src/Runtime.antt =====
-- src/runtime: the continuous-batching engine.
pub mod Channel
pub mod Sequence
pub mod Submission
pub mod Requests
pub mod Passes
pub mod Loop
pub mod Tests
