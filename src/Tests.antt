-- ===== src/Tests.antt =====
-- Runs on concrete data: each theorem of the results applied to an input of the program.
mod Clock
mod Peers
mod Merging
mod Counting
mod Access
mod Writes
mod Server
mod Galaxies
mod Client
mod Files
mod Usage
mod Listings
