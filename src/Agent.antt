-- ===== src/Agent.antt =====
-- internal/agent: the parts of the agent that decide on tool calls.
pub mod ToolDedup
