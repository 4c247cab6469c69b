-- ===== src/Types.antt =====
-- The data that the server sends: apps/web/shared/types.
pub mod Value
pub mod Issue
pub mod Inbox
pub mod Comment
pub mod Workspace
pub mod Agent
