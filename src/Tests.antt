-- ===== src/Tests.antt =====
-- Runs of the model on concrete inputs, and one instance of each result that has conditions.
mod Text
mod Queue
mod Files
mod Trees
mod Handles
mod Segments
mod Parts
mod Requests
mod Listing
mod Commands
mod Local
mod Packer
mod Streams
mod Schedules
mod Shown
mod Listers
