-- ===== src/Shell.antt =====
-- packages/tools/src/shellParse.ts, shellScope.ts and shellDanger.ts: how a shell command is read,
-- what an approval of it may cover, and whether it is known to be irreversible.
pub mod Scan
pub mod Parse
pub mod Grantable
pub mod Rules
pub mod Danger
mod Tests
