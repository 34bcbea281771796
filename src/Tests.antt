-- ===== src/Tests.antt =====
-- Concrete inputs, and what the theorems say of them.
mod Data
mod Store
mod Server
mod Worker
mod Process
mod Routes
mod Fetch
mod Requests
mod Robots
mod Sizes
mod Url
