-- ===== src/Tests.antt =====
-- Concrete runs of the definitions, and the theorems at concrete inputs.
mod NameTests
mod WireTests
mod StateTests
mod CacheTests
mod RecursorTests
mod CodecTests
mod RecordTests
mod BackendTests
mod UeberTests
