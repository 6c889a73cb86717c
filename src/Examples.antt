-- ===== src/Examples.antt =====
-- Concrete runs of the models: the theorems at inputs that meet their hypotheses.
mod Pools
mod Messages
mod Sessions
mod Tracks
mod Servers
mod Clients
mod Controls
mod Configs
mod Subscriptions
mod Commands
mod Journeys
