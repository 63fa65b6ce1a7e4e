-- ===== src/Defaults/Tests.antt =====
-- The default configurations with the sample kernel.
use com_lib.Posix.{stream}
use com_lib.Posix.Sample.{new_kernel, sample}
use com_lib.Tcp.Defs.{new_tcp}
use com_lib.Tcp.Lifecycle.{open_device}
use com_lib.Defaults.Configs.{default_tcp_config}
use com_lib.Defaults.Opening.{abandoned, open_device-default_tcp_config}
use com_lib.Prelude.{false, none, ◌≡◌}

default_client_stays_closed :
    let q = open_device sample (new_tcp default_tcp_config new_kernel) in
    (q.0 ≡ false)
    × (q.1.handle ≡ none)
    × (q.1.link.healthy ≡ false)
    × (q.1.link.stats.error_count ≡ 1)
    × (q.1.kernel ≡ abandoned sample (sample.create stream new_kernel))
default_client_stays_closed = open_device-default_tcp_config sample new_kernel
