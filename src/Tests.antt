-- ===== src/Tests.antt =====
-- Runs of the definitions and instances of the theorems at concrete inputs, by component.
mod Wire
mod Memory
mod Handlers
mod PubSub
mod Protocol
mod Server
mod Life
mod Client
mod Bench
mod Reads
mod Cli
mod Session
mod App
mod Program
