-- ===== src/SessionAgent.antt =====
-- runtime/session_agent.py: the agent that restores a desktop session.
pub mod Restore
pub mod Once
mod Tests
