-- ===== src/App.antt =====
-- src/cli/report.cpp and src/app/main.cpp: what the program prints, and `main`.
pub mod Report
pub mod Program
pub mod Exits
mod Tests
