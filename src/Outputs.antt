-- ===== src/Outputs.antt =====
-- plugins/output_csv.c, output_table.c, sample_plugin.c and input_cli.c: the plugins that print records,
-- and the one that reads commands. What is printed is a list of lines.
pub mod Csv
pub mod Table
pub mod Cli
pub mod Thread
pub mod Typed
pub mod Split
pub mod Columns
pub mod Cadence
pub mod Pass
mod Tests
