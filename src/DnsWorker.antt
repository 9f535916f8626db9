-- ===== src/DnsWorker.antt =====
-- dnsworker/dnsworker.go: dialling the connections of a pool, the tasks that run on them, and the
-- resolution of a name. The DNS client, the switch of the network namespace and the worker pool are
-- not under this repository: what they answer is an argument, and the worker pool is known by the
-- number of tasks that it runs at once.
pub mod Dial
pub mod Tasks
pub mod Exclusive
pub mod Resolve
pub mod Answers
