-- ===== src/Lib.antt =====
-- io-monitor: a library that intercepts the I/O calls of a process and sends a record of each
-- (io_monitor/io_monitor.c), and a listener that receives the records and runs them through a chain of
-- plugins (mq_listener, plugins).
--
-- The parts, and the files that model them:
--
-- * Monitor.antt and Monitor/ model io_monitor/io_monitor.c. `Monitor` is the static variables;
--   `record_intercept` is record(), `decide` its early returns, `sample_count` and `sample_time` its two
--   samplings, `make_record` the record; Send has send_msg_queue and send_tcp_socket, Setup has
--   load_library_functions and initialize_monitor. Totals, Runs and Delivered are sequences of
--   intercepts, the last with what comes into the queue, and Keeps is what all of record() keeps.
-- * Process is init() and fini() of the same file, which report the start and the end of a process;
--   Exec and Address are its helpers for exec calls and for addresses.
-- * Http is check_for_http of io_monitor/check_for_http.cpp.
-- * Domain, Op, Record and Plugin are include/domains.h, ops.h, monitor_record.h and plugin.h; Mask is
--   domain_list_to_bit_mask of include/utility_routines.h, which the monitor and the filter both use.
-- * Filter is plugins/filter_domains.c, Influx plugins/output_influxdb.c, and Outputs has output_csv.c,
--   sample_plugin.c, output_table.c and input_cli.c of plugins.
-- * Commands is mq_listener/command_parser.c: the list of commands, a line of a config file
--   (parse_command), the command line (parse_args).
-- * Chain is the chain of plugins of mq_listener/plugin_chain.c, and Listener the commands of
--   mq_listener/mq_listener.c with the loading and unloading of plugins. `World` is their globals.
-- * Resolver is mq_listener/resolver.cpp. Daemon is main and input_loop of mq_listener/mq_listener.c,
--   where the resolver, the chain and the commands come together; Daemon/Lines has the filter and the csv
--   plugin in the chain of a run of the loop, Daemon/Reported and Daemon/Whole put record() in front of
--   it, and Daemon/Reach are the states that messages and typed lines lead to.
-- * Prelude, Tokens (strtok_r), CharArray (char arrays, strncpy), Format (printf) and Outcome (a call
--   that returns, exits or does what C leaves undefined) are shared.
--
-- Numbers of a machine type are naturals or integers with the wrap-around written out where the code
-- can reach it: the mask is below 2 ^ 32, the sums of times are taken modulo 2 ^ 64. The counters of the
-- monitor are numbers, which an `int` follows up to 2 ^ 31. Floats are bit patterns, and their operations
-- a parameter. What the system, the environment and the plugin libraries answer are parameters too:
-- Monitor/Outside.antt and Listener/Outside.antt, which also says whether an unloaded plugin is there
-- still, `Tables` of Format, `Curl` of Influx, `Unset` of Http.
--
-- Fuel: strtok_r's loop has one more than the length of the text, which Tokens shows to be enough;
-- print-mask has 33 rounds for 32 flags; the retries of msgsnd are five in the code; the digits of a
-- number are as many as it at most. The depth of `call` bounds how deep config files nest, and stands
-- for the stack; Listener/Nesting and Daemon/Reach say which depth is enough. The thread of input_cli is a step relation.
--
-- Not modelled: the intercepting functions and the tables of names, which the build generates; threads
-- but that of input_cli, and that of the loop with one that runs commands, under the lock of the chain
-- (Chain/Threads); malloc and free, but for the block of the exec helpers and the labels of list_plugins;
-- what is printed, but by print-mask, help, list-plugins and the output plugins; the shell scripts,
-- tests and build files, which hold no logic of the running program.
mod Prelude
pub mod Format
pub mod Tokens
pub mod Domain
pub mod Op
pub mod Mask
pub mod CharArray
pub mod Record
pub mod Plugin
pub mod Filter
pub mod Exec
pub mod Address
pub mod Influx
pub mod Outputs
pub mod Chain
pub mod Resolver
pub mod Outcome
pub mod Listener
pub mod Daemon
pub mod Monitor
pub mod Commands
pub mod Process
pub mod Http
