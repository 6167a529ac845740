-- ===== src/Ring/Timeout.antt =====
-- `wait_with_timeout` of src/ring.rs, when it raises after it has pushed its entry.
use century_ring.Platform.{Platform}
