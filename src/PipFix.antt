-- ===== src/PipFix.antt =====
-- The fixer of vulnerable Python packages: scripts/security/pip_fix.py.
pub mod Sorting
pub mod Versions
pub mod Numbers
pub mod Names
pub mod Severity
pub mod Codes
pub mod Edit
pub mod Pins
pub mod Edited
pub mod Choice
pub mod Chosen
pub mod Plan
pub mod Planned
pub mod Reported
pub mod Collected
pub mod Automatic
pub mod Apply
mod Tests
