-- ===== src/Imapsync.antt =====
-- The command line of imapsync: the gate for flags that an administrator types, and the builder of
-- the arguments with its last check.
pub mod Shlex
pub mod Flags
pub mod Runner
pub mod Stats
