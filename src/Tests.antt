-- ===== src/Tests.antt =====
-- Each result at concrete arguments, with the queue that is a list.
mod Links
mod Bridges
mod Bench
mod Packets
mod Sessions
mod Cycles
mod Ends
mod Powered
mod Lives
mod Selected
mod Device
mod Remote
mod Clients
mod Intercon
mod Switched
mod Timeout
mod Wires
