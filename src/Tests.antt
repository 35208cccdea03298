-- ===== src/Tests.antt =====
-- The tests of the development, and its theorems at concrete inputs.
mod Samples
mod Texts
mod Scores
mod Games
mod Rooms
mod Kicks
mod Losses
mod Queues
mod Doors
mod Openings
mod Messages
mod Sockets
mod Deletions
