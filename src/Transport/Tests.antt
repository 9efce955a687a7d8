-- ===== src/Transport/Tests.antt =====
-- Runs of the transport's definitions on concrete frames, batches and queues.
mod Samples
mod Codec
mod Frames
mod Queues
mod Batches
