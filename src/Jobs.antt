-- ===== src/Jobs.antt =====
-- jobs/: the workers of the queues. BullMQ, which runs a job, repeats it when it throws and delivers
-- it again after a crash, is a library: what it does is the list of runs that a job is given.
pub mod Email
pub mod Delivery
pub mod Redelivery
pub mod Cleanup
