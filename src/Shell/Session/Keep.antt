-- ===== src/Shell/Session/Keep.antt =====
-- Lab2/src/shell.c: what a session of the shell keeps, and when it ends.
use fall_oslab.Base.{List}
use fall_oslab.Shell.Session.{Shell}
