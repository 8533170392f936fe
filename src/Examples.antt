-- ===== src/Examples.antt =====
-- Concrete runs of the theorems, on a small vocabulary.
mod Vocab
mod Text
mod Service
mod Process
mod Startup
mod Replies
