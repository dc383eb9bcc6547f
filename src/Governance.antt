-- ===== src/Governance.antt =====
-- js/governance: the choice among the branches of a group's event graph, and the admission of members.
pub mod Branch
pub mod JoinPow
pub mod Succession
