-- ===== src/Plugin.antt =====
-- include/plugin.h: the codes that a plugin's entry points answer with.
use io_monitor.Prelude.{ℤ, pos, negsuc}

abbrev pub plugin_open_success : ℤ
plugin_open_success = pos 0

abbrev pub plugin_open_fail : ℤ
plugin_open_fail = pos 1

abbrev pub plugin_accept_data : ℤ
plugin_accept_data = pos 1

abbrev pub plugin_refuse_data : ℤ
plugin_refuse_data = pos 0

abbrev pub plugin_drop_data : ℤ
plugin_drop_data = negsuc 0
