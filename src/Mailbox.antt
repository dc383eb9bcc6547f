-- ===== src/Mailbox.antt =====
-- js/mailbox: the limits of the store-and-forward mailbox.
pub mod Rate
pub mod Prune
