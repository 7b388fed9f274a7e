-- ===== src/Daemon/Tests.antt =====
-- A run of input_loop of mq_listener/mq_listener.c.
use io_monitor.Prelude.{ℕ, pos, negsuc, false, List, [], ◌∷◌, codes, ◌≡◌, refl}
use io_monitor.Domain.{domain_value}
use io_monitor.Chain.Tests.{read_record, zero_heap}
use io_monitor.Resolver.{Resolver, find_fd}
use io_monitor.Resolver.Descriptors.{last_effect, with_device}
use io_monitor.Daemon.Devices.{events_of, input_loop-track}
use io_monitor.Daemon.{Received, message, failed, has_descriptor, track, Daemon, input_loop}

abbrev idle : Daemon ℕ
idle = record {
  world = record {
    s_commands = [];
    plugins = [];
    heap = zero_heap;
    fresh = 0;
    message_queue_key = negsuc 0;
    message_queue_id = negsuc 0;
    show_runtime_commands = false;
  };
  resolver = record { fs_mount_path_to_dev = []; root_fs_dev = codes "sda1"; fd_to_dev = [] };
}

abbrev messages : List Received
messages =
    message (record read_record { dom_type = 13; op_type = 0; s1 = codes "/etc/x" }) ∷ failed ∷ []

track_example :
    (track read_record (input_loop (codes "host") messages idle).resolver).0
    ≡ with_device
        (last_effect idle.resolver read_record.fd
          (events_of (codes "host") messages)
          (find_fd read_record.fd idle.resolver.fd_to_dev))
        read_record
unfolding has_descriptor domain_value
track_example = input_loop-track (codes "host") messages idle read_record refl refl refl

-- The name of the device has ten bytes, and no NUL is left behind it.
abbrev long_device : Resolver
long_device = record idle.resolver { fd_to_dev = (pos 4, codes "nvme0n1p11") ∷ [] }
