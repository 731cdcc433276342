-- ===== src/Kprobe.antt =====
-- kprobe/code.c and kprobe1/code.c: a probe at an address of the kernel, given as a number or found
-- by its name. The two have the same handlers and the same `stops`.
pub mod Session
mod Tests
use lkb.Common.{
  ℕ, ℤ, pos, negsuc, is_zero, ◌==◌, if◌then◌else◌, List, [], ◌∷◌, ◌++◌, Option, none, some,
}
use lkb.Common.Events.{Io, ◌>>=◌, ◌>>◌, emit, return}
use lkb.Kernel.KprobeApi.{KprobeApi}

-- What is printed.
pub data Line : Type 0 where
  entering : Line
  exiting : Line
  inside_pre : Line
  inside_post : Line
  lookup_failed : Line

-- `ADDRESS`, that of submit_bio.
abbrev pub address : ℕ
address = 18446744071582103088

-- `pre_handler`: 0 lets the kernel go on with the instruction.
unfoldable pub pre_handler : Io Line ℤ
pre_handler = emit inside_pre >> return (pos 0)

unfoldable pub post_handler : Io Line (Unit {0})
post_handler = emit inside_post

module _ (api : KprobeApi) where
  open api use {Probes, register_kprobe, unregister_kprobe}

  -- `start` of kprobe/code.c
  unfoldable pub start : Probes → Io Line (Probes × ℤ)
  start s = do emit entering; return ((register_kprobe address s).1, pos 0)

  -- `start` of kprobe1/code.c, where `kallsyms_lookup_name` returns addr; 0 is NULL.
  unfoldable pub start_named : (addr : ℕ) → Probes → Io Line (Probes × ℤ)
  start_named addr s = do
    emit entering
    if addr == 0
        then (emit lookup_failed >> return (s, negsuc 0))
        else return ((register_kprobe addr s).1, pos 0)

  unfoldable pub stops : Probes → Io Line Probes
  stops s = emit exiting >> return (unregister_kprobe s)
