-- ===== src/RcmClient.antt =====
-- common/src/ti/grcm/RcmClient.c: how a client gets its replies, what its calls make of them, and its
-- creation.
pub mod Mailbox
pub mod Calls
pub mod Instance
mod Tests
