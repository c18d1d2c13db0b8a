-- ===== src/Examples.antt =====
-- The theorems applied to concrete runs of the labs' programs.
mod Jobs
mod Boards
mod Nodes
mod Rings
mod Peers
mod Connections
mod Sorts
mod Workers
mod Sites
mod Clerks
mod Words
mod Commands
