-- ===== src/Tests.antt =====
-- Runs of the definitions at concrete inputs, and the theorems at inputs that meet their hypotheses.
mod Samples
mod AddrMap
mod AddrCache
mod Ping
mod Run
mod DnsWorker
mod Digger
mod Messymoby
mod Mobynet
mod Stream
mod Display
mod Command
mod Chain
mod Report
mod System
mod Main
