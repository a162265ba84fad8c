-- ===== src/Rkcdpd.antt =====
-- rkcdp/rkcdpd.py: the daemon that keeps a node's replica.raw identical to its disk.
pub mod SeedLayer
pub mod Replica
pub mod Daemon
pub mod Status
pub mod Consistent
pub mod Restart
pub mod Threads
pub mod Timers
pub mod Recovery
pub mod Conf
pub mod Target
pub mod Throttle
