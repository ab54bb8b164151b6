-- ===== src/Tests.antt =====
-- The theorems of the components at concrete lists, services, graphs and units.
mod Lists
mod Services
mod Repositories
mod Graphs
mod Groups
mod Notes
mod Restarter
mod Setups
mod Managers
mod Depths
mod Values
mod Conversions
mod Wires
mod Remotes
mod NvCalls
mod Connections
mod Buses
