-- ===== src/Exec/Tests.antt =====
-- Arguments to try the exec helpers of io_monitor/io_monitor.c on. A pointer is its text.
use io_monitor.Prelude.{some, List, [], ◌∷◌, Bytes, codes, length, leb, if◌then◌else◌, ◌≡◌}
use io_monitor.Exec.{made, out_of_block, execv, execvp, orig_vexecl, orig_vexeclp}
use io_monitor.Exec.Arguments.{passed, orig_vexecl_lem}

abbrev sh : Bytes
sh = codes "/bin/sh"

abbrev given : List Bytes
given = codes "-c" ∷ codes "ls" ∷ []

execl_example :
    (orig_vexecl sh (some (codes "sh")) (passed given [])
      ≡ (if leb (length given) 510 then made (execv sh (codes "sh" ∷ given)) else out_of_block))
    × (orig_vexeclp sh (some (codes "sh")) (passed given [])
        ≡ (if leb (length given) 510 then made (execvp sh (codes "sh" ∷ given)) else out_of_block))
execl_example = orig_vexecl_lem sh (codes "sh") given []
