-- ===== src/Atomicfile/Tests.antt =====
-- A write over a file, with every call succeeding.
use mcpurl.Prelude.{◌≡◌, refl, true, none, some, if◌then◌else◌, ap, arith}
use mcpurl.Prelude.Bytes.{Bytes, codes, equal}
use mcpurl.Prelude.Lists.{length}
use mcpurl.Atomicfile.{Disk, Calls, write, mode_for}
use mcpurl.Atomicfile.Whole.{Replaces, write-Replaces}

abbrev path : Bytes
path = codes "config"

abbrev beside : Bytes
beside = codes "config.tmp-1"

abbrev calls : Calls
calls = record {
  target_of = none;
  stats = true;
  makes_dirs = true;
  temp = some beside;
  changes_mode = true;
  stops_after = none;
  closes = true;
  renames = true;
  removes = true;
}

abbrev disk : Disk
disk q = if equal q path then some (record { content = codes "old"; mode = 33188 }) else none

beside-absent : disk beside ≡ none
unfolding equal
beside-absent = refl

beside-path : ¬ (beside ≡ path)
beside-path e = absurd (omega (arith, ap length e))

write-Replaces_example :
    Replaces disk path beside
      (codes "new")
      (mode_for calls.stats 384 (disk path))
      calls
      (write calls path (codes "new") 384 disk)
write-Replaces_example =
    write-Replaces calls path (codes "new") beside 384 disk refl beside-absent beside-path
