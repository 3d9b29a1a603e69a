-- ===== src/Posix/Host/Ends.antt =====
-- A server's process from its start to its end.
use cppsocks.Posix.Host.{Host}
