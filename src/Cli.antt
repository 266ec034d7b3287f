-- ===== src/Cli.antt =====
-- src/cli/args.h, src/cli/args.cpp and src/core/config.h: the command line and the configuration.
pub mod Options
pub mod Args
pub mod Protocols
pub mod Numbers
pub mod Accepted
pub mod Ready
mod Tests
