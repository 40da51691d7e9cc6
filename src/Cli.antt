-- ===== src/Cli.antt =====
-- cmd/broadcast-cli/main.go: how the command line client reads its lines and prints its replies. The
-- line editor is C code; Go's fmt verbs are parameters.
pub mod Sort
pub mod Tokens
pub mod Help
pub mod Print
pub mod Action
pub mod Order
pub mod Lines
pub mod Numbers
pub mod Run
pub mod Listen
pub mod Listing
pub mod Session
pub mod Leak
