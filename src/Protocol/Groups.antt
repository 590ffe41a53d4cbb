-- ===== src/Protocol/Groups.antt =====
-- internal/protocol/groups.go: the messages of the group protocol.
pub mod Join
pub mod Sync
pub mod Heartbeat
pub mod Commit
pub mod CommitResponse
