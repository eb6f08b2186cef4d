-- ===== src/Delay.antt =====
-- Sleeping in a process: template/ukcDrvFrame/src/ukc_usr/ukc_delay.c.
pub mod Sleep
pub mod Target
mod Tests
