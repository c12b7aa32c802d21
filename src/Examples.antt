-- ===== src/Examples.antt =====
-- The theorems at concrete sockets, frames, networks and channels.
mod Sockets
mod Frames
mod Networks
mod Ends
mod Channels
mod Streams
mod Neighbors
mod Routes
mod Tunnels
