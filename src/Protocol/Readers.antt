-- ===== src/Protocol/Readers.antt =====
-- The readers of introducer.go, api/pmb.go, notify_mobile.go and run.go on messages of the program's types.
use pmb.Protocol
