-- ===== src/Monitor/Send.antt =====
-- send_msg_queue and send_tcp_socket of io_monitor/io_monitor.c: their result, and the variables that
-- they leave. What is sent is the record that they are given.
use io_monitor.Prelude.{
  ℕ, zero, suc, ◌+◌, ◌*◌, ◌^◌, ℤ, pos, negsuc, Bool, not, ◌&&◌, Option, none, some, Bytes, ◌==ℤ◌,
  ltb_ℤ, if◌then◌else◌,
}
use io_monitor.Record.{fd_none}
use io_monitor.Monitor.Outside.{Answers}
use io_monitor.Monitor.State.{Monitor}

module _ (os : Answers) where
  -- `r && errno == EAGAIN`
  abbrev pub try_again : ℕ → Bool
  try_again retries = not ((os.msgsnd retries).0 ==ℤ pos 0) && (os.msgsnd retries).1

  -- `retries` is 5 less `left`. The time counted as lost is that of the retry that follows.
  unfoldable pub msgsnd_from : ℕ → ℕ → Monitor → ℤ × Monitor
  msgsnd_from zero retries m = (os.no_value, m)
  msgsnd_from (suc left) retries m =
      let again = msgsnd_from left (retries + 1) (record m {
        ipc_retries = m.ipc_retries + 1;
        ipc_retry_wait_lost_time = m.ipc_retry_wait_lost_time + 512 * 2 ^ (retries + 1);
      }) in
      if try_again retries then again else ((os.msgsnd retries).0, m)

  abbrev pub queue_of_path : Option Bytes → Monitor → Monitor
  queue_of_path none m = m
  queue_of_path (some path) m =
      let key = os.ftok path in
      if key ==ℤ negsuc 0
      then record m { message_queue_key = key }
      else record m { message_queue_key = key; message_queue_id = os.msgget key }

  -- The queue is looked up until it has a key.
  unfoldable pub find_queue : Monitor → Monitor
  find_queue m =
      if m.message_queue_key ==ℤ os.mq_key_none then queue_of_path m.message_queue_path m else m

  unfoldable pub send_msg_queue : Monitor → ℤ × Monitor
  unfolding msgsnd_from find_queue
  send_msg_queue m =
      let m1 = find_queue m in
      if m1.message_queue_id ==ℤ os.mq_key_none then (negsuc 0, m1) else msgsnd_from 5 0 m1

  -- The two writes: the header of ten bytes, and the record.
  unfoldable pub write_both : ℤ
  write_both =
      if pos 10 ==ℤ os.write_header
      then (if os.record_size ==ℤ os.write_record then pos 0 else negsuc 0)
      else negsuc 0

  -- `socket_fd` holds the socket only until this function returns. Without a socket the result is a
  -- variable that was never set.
  unfoldable pub send_tcp_socket : Monitor → ℤ × Monitor
  unfolding write_both
  send_tcp_socket m =
      if ltb_ℤ (pos 0) os.socket
      then (if os.connect ==ℤ pos 0 then (write_both, record m { socket_fd = fd_none }) else (
        negsuc 0,
        record m {
          failed_socket_connections = m.failed_socket_connections + 1;
          socket_fd = fd_none;
        },
      ))
      else (os.no_value, m)
