-- ===== src/Tests.antt =====
-- Examples: the data that they share, and the theorems at work on them.
mod Toy
mod Interview
mod Reaching
mod Parsing
mod Preparation
mod Sessions
mod Messages
mod Mapping
mod Github
