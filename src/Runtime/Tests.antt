-- ===== src/Runtime/Tests.antt =====
-- src/runtime.rs at concrete inputs.
use girth.Prelude.{true, false}
use girth.Runtime.{TransferControl}

abbrev limited_control : TransferControl
limited_control = record { rate_limit = 5000; paused = true; cancelled = false }
