-- ===== src/Tests.antt =====
-- Examples: each theorem of the list in Lib.antt at one concrete input.
mod Planning
mod Judging
mod Running
mod Whole
mod Activating
mod Collecting
mod Dispatching
mod Reviewing
