-- ===== src/Factory.antt =====
-- Tasks from the words of a command and from the log: src/task_factory.cpp.
pub mod Create
pub mod RestoreCreated
