-- ===== src/Session.antt =====
-- localagentcli/session: the budget of tokens that a session keeps.
pub mod Usage
