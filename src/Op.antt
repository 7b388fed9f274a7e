-- ===== src/Op.antt =====
-- include/ops.h: OP_TYPE, and the value that C gives to each enumerator.
use io_monitor.Prelude.{ℕ}

pub data Op : Type 0 where
  open_op close write read sync seek rename link unlink fcntl dup stat access chmod chown : Op
  flock readlink utime getxattr setxattr listxattr removexattr mount umount fork mknod : Op
  mkdir rmdir chdir chroot socket flush allocate truncate opendir closedir readdir seekdir : Op
  telldir rewinddir scandir connect accept listen bind exec kill start stop http_req_send : Op
  http_req_recv http_resp_send http_resp_recv http_resp_fini_send http_resp_fini_recv : Op
  mutex_lock mutex_unlock mutex_init mutex_destroy thread_create cond_wait cond_signal : Op
  cond_broadcast : Op

-- The value of an enumerator, counted from 0. (`open_op` is OPEN: `open` is a reserved word here.)
unfoldable pub op_value : Op → ℕ
op_value open_op = 0
op_value close = 1
op_value write = 2
op_value read = 3
op_value sync = 4
op_value seek = 5
op_value rename = 6
op_value link = 7
op_value unlink = 8
op_value fcntl = 9
op_value dup = 10
op_value stat = 11
op_value access = 12
op_value chmod = 13
op_value chown = 14
op_value flock = 15
op_value readlink = 16
op_value utime = 17
op_value getxattr = 18
op_value setxattr = 19
op_value listxattr = 20
op_value removexattr = 21
op_value mount = 22
op_value umount = 23
op_value fork = 24
op_value mknod = 25
op_value mkdir = 26
op_value rmdir = 27
op_value chdir = 28
op_value chroot = 29
op_value socket = 30
op_value flush = 31
op_value allocate = 32
op_value truncate = 33
op_value opendir = 34
op_value closedir = 35
op_value readdir = 36
op_value seekdir = 37
op_value telldir = 38
op_value rewinddir = 39
op_value scandir = 40
op_value connect = 41
op_value accept = 42
op_value listen = 43
op_value bind = 44
op_value exec = 45
op_value kill = 46
op_value start = 47
op_value stop = 48
op_value http_req_send = 49
op_value http_req_recv = 50
op_value http_resp_send = 51
op_value http_resp_recv = 52
op_value http_resp_fini_send = 53
op_value http_resp_fini_recv = 54
op_value mutex_lock = 55
op_value mutex_unlock = 56
op_value mutex_init = 57
op_value mutex_destroy = 58
op_value thread_create = 59
op_value cond_wait = 60
op_value cond_signal = 61
op_value cond_broadcast = 62

-- END_OPS
abbrev pub end_ops : ℕ
end_ops = 63
