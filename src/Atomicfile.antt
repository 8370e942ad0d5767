-- ===== src/Atomicfile.antt =====
-- pkg/atomicfile/atomicfile.go: `Write` replaces a file through a temporary one beside it. Every
-- system call may fail; a run is the list of the disks that another process can see, one after
-- each call that changes something, so a crash after any call is a prefix of it.
pub mod Whole
mod Tests
use mcpurl.Prelude.{
  ℕ, ◌%◌, Bool, true, false, List, [], ◌∷◌, Option, none, some, if◌then◌else◌, get_or, ◌++◌,
}
use mcpurl.Prelude.Bytes.{Bytes, equal}
use mcpurl.Prelude.Lists.{take}

pub record File : Type 0 where
  pub content : Bytes
  pub mode : ℕ

-- The files by the path that is left once links are followed.
abbrev pub Disk : Type 0
Disk = Bytes → Option File

unfoldable pub put : Bytes → Option File → Disk → Disk
put p f d q = if equal p q then f else d q

-- What package os answers to the calls of one `Write`.
pub record Calls : Type 0 where
  -- `EvalSymlinks`, none where it fails.
  pub target_of : Option Bytes
  -- Whether `Stat` succeeds on a file that exists.
  pub stats : Bool
  pub makes_dirs : Bool
  -- The name that `CreateTemp` makes up, none where it fails.
  pub temp : Option Bytes
  pub changes_mode : Bool
  -- Some `n` where the write fails after `n` bytes.
  pub stops_after : Option ℕ
  pub closes : Bool
  pub renames : Bool
  pub removes : Bool

-- Whether `Write` returns nil, and the disks since it was called.
pub record Run : Type 0 where
  pub ok : Bool
  pub disks : List Disk

-- `os.FileMode.Perm`
unfoldable pub perm : ℕ → ℕ
perm m = m % 512

-- The mode that the file has, and the one that was asked for where there is no file or `os.Stat`
-- fails on it.
unfoldable pub mode_for : Bool → ℕ → Option File → ℕ
unfolding perm
mode_for stats m none = m
mode_for stats m (some f) = if stats then perm f.mode else m

-- `defer os.Remove(tmp.Name())`
unfoldable pub with_remove : Calls → Bytes → Bool → Disk → List Disk → Run
unfolding put
with_remove o tmp ok last before = record {
  ok = ok;
  disks = before ++ ((if o.removes then put tmp none last else last) ∷ []);
}

-- `os.Rename(tmp.Name(), path)`, which leaves no file at the old name.
unfoldable pub renamed : Calls → Bytes → Bytes → Disk → List Disk → Run
unfolding put with_remove
renamed o tmp path d before =
    if o.renames
    then (let e = put path (d tmp) (put tmp none d) in
        record { ok = true; disks = before ++ (e ∷ put tmp none e ∷ []) })
    else with_remove o tmp false d before

-- `tmp.Write(data)`, with as much as was written where it fails, and `tmp.Close()`.
unfoldable pub filled : Calls → Bytes → Bytes → Bytes → ℕ → Option ℕ → Disk → List Disk → Run
unfolding put with_remove renamed
filled o tmp path bytes mode (some n) d before =
    let e = put tmp (some (record { content = take n bytes; mode = mode })) d in
    with_remove o tmp false e (before ++ (e ∷ []))
filled o tmp path bytes mode none d before =
    let e = put tmp (some (record { content = bytes; mode = mode })) d in
    if o.closes
    then renamed o tmp path e (before ++ (e ∷ []))
    else with_remove o tmp false e (before ++ (e ∷ []))

-- From `os.CreateTemp`, which makes an empty file of mode 0600.
unfoldable pub in_temp : Calls → Option Bytes → Bytes → Bytes → ℕ → Disk → Run
unfolding put with_remove filled
in_temp o none path bytes mode d = record { ok = false; disks = [] }
in_temp o (some tmp) path bytes mode d =
    let c = put tmp (some (record { content = []; mode = 384 })) d in
    if o.changes_mode
    then (let e = put tmp (some (record { content = []; mode = mode })) c in
        filled o tmp path bytes mode o.stops_after e (c ∷ e ∷ []))
    else with_remove o tmp false c (c ∷ [])

-- `Write`
unfoldable pub write : Calls → Bytes → Bytes → ℕ → Disk → Run
unfolding mode_for in_temp
write o path bytes mode d =
    let target = get_or path o.target_of in
    if o.makes_dirs
    then in_temp o o.temp target bytes (mode_for o.stats mode (d target)) d
    else record { ok = false; disks = [] }
