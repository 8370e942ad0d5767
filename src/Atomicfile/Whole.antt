-- ===== src/Atomicfile/Whole.antt =====
-- What other processes see of a `Write`, whichever call fails and wherever the process dies.
use mcpurl.Prelude.{
  Bool-cases, ℕ, ◌≡◌, ◌⊎◌, refl, sym, ◌∙◌, ap, false, List, [], ◌∷◌, ◌++◌, Option, none, some, inl,
  inr, if◌then◌else◌, get_or, subst, if_both,
}
use mcpurl.Prelude.Bytes.{Bytes, equal_self, equal-cases}
use mcpurl.Prelude.Lists.{All, All-append, take}
use mcpurl.Atomicfile.{
  File, Disk, put, Calls, Run, with_remove, renamed, filled, in_temp, mode_for, write,
}

put_same : (p : Bytes) (f : Option File) (d : Disk) → put p f d p ≡ f
unfolding put
put_same p f d = rw (equal_self p) refl

put_other : (p : Bytes) (f : Option File) (d : Disk) (q : Bytes) → ¬ (p ≡ q) → put p f d q ≡ d q
unfolding put
put_other p f d q h = elim (equal-cases p q) [
  | inl (e, same) ↦ absurd (h same)
  | inr (e, other) ↦ rw e refl
]

-- A temporary file that holds data has the mode of the file it is to replace; an empty one may
-- have mode 0600.
abbrev Guarded : ℕ → Option File → Type 0
Guarded mode none = Unit {0}
Guarded mode (some f) = (f.mode ≡ mode) ⊎ ((f.content ≡ []) × (f.mode ≡ 384))

-- The disk that a run leaves.
abbrev pub last : Disk → List Disk → Disk
last d [] = d
last d (e ∷ es) = last e es

last-append : (d e : Disk) (l : List Disk) → last d (l ++ (e ∷ [])) ≡ e
last-append d e [] = refl
last-append d e (x ∷ l) = last-append x e l

last-append2 : (d e f : Disk) (l : List Disk) → last d (l ++ (e ∷ f ∷ [])) ≡ f
last-append2 d e f [] = refl
last-append2 d e f (x ∷ l) = last-append2 x e f l

-- A write of `bytes` with `mode` over `target` on the disk `d`.
module _ (d : Disk) (target tmp bytes : Bytes) (mode : ℕ) where
  abbrev new : File
  new = record { content = bytes; mode = mode }

  -- A disk on which the target is what it was or the whole new file, no other file but the
  -- temporary one has changed, and that one is guarded.
  pub record IsWhole (e : Disk) : Type 0 where
    pub either : (e target ≡ d target) ⊎ (e target ≡ some new)
    pub others : (q : Bytes) → ¬ (target ≡ q) → ¬ (tmp ≡ q) → e q ≡ d q
    pub guarded : Guarded mode (e tmp)

  -- A run that shows such disks only; at its end the target is the new file where the run
  -- succeeded and the old one where it failed, and the temporary file is gone unless its removal
  -- failed.
  pub record Replaces (o : Calls) (r : Run) : Type 0 where
    pub seen : All IsWhole r.disks
    pub ended : last d r.disks target ≡ (if r.ok then some new else d target)
    pub cleaned : (o.removes ≡ false) ⊎ (last d r.disks tmp ≡ none)

  -- Only the temporary file differs.
  record IsBeside (e : Disk) : Type 0 where
    same : (q : Bytes) → ¬ (tmp ≡ q) → e q ≡ d q
    safe : Guarded mode (e tmp)

  put-IsBeside : (e : Disk) (f : Option File) → IsBeside e → Guarded mode f → IsBeside (put tmp f e)
  put-IsBeside e f i g = record {
    same = λ q h. put_other tmp f e q h ∙ i.same q h;
    safe = subst (Guarded mode) (sym (put_same tmp f e)) g;
  }

  module _ (apart : ¬ (tmp ≡ target)) (o : Calls) where
    IsBeside-IsWhole : (e : Disk) → IsBeside e → IsWhole e
    IsBeside-IsWhole e i = record {
      either = inl (i.same target apart);
      others = λ q h k. i.same q k;
      guarded = i.safe;
    }

    more : (l : List Disk) (e : Disk) → All IsWhole l → IsWhole e → All IsWhole (l ++ (e ∷ []))
    more l e a w = All-append IsWhole l (e ∷ []) a (w, tt)

    with_remove-Replaces :
        (e : Disk) (before : List Disk)
        → IsBeside e
        → All IsWhole before
        → Replaces o (with_remove o tmp false e before)
    unfolding with_remove
    with_remove-Replaces e before i a =
        let f = if o.removes then put tmp none e else e in
        let j : IsBeside f = if_both IsBeside o.removes (put-IsBeside e none i tt) i in
        record {
          seen = more before f a (IsBeside-IsWhole f j);
          ended = ap (λ (x : Disk). x target) (last-append d f before) ∙ j.same target apart;
          cleaned = elim (Bool-cases o.removes) [
            | inr kept ↦ inl kept
            | inl gone ↦ inr (
                ap (λ (x : Disk). x tmp) (last-append d f before)
                ∙ ap (λ b. (if b then put tmp none e else e) tmp) gone
                ∙ put_same tmp none e)
          ];
        }

    renamed-IsWhole :
        (e : Disk) → IsBeside e → e tmp ≡ some new → IsWhole (put target (e tmp) (put tmp none e))
    renamed-IsWhole e i h =
        let g = put tmp none e in
        record {
          either = inr (put_same target (e tmp) g ∙ h);
          others = λ q k n. put_other target (e tmp) g q k ∙ put_other tmp none e q n ∙ i.same q n;
          guarded =
              subst (Guarded mode)
                (sym (put_other target (e tmp) g tmp (λ s. apart (sym s)) ∙ put_same tmp none e))
                tt;
        }

    removed-IsWhole : (e : Disk) → IsWhole e → e target ≡ some new → IsWhole (put tmp none e)
    removed-IsWhole e w h = record {
      either = inr (put_other tmp none e target apart ∙ h);
      others = λ q k n. put_other tmp none e q n ∙ w.others q k n;
      guarded = subst (Guarded mode) (sym (put_same tmp none e)) tt;
    }

    renamed-Replaces :
        (e : Disk) (before : List Disk)
        → IsBeside e
        → e tmp ≡ some new
        → All IsWhole before
        → Replaces o (renamed o tmp target e before)
    unfolding renamed
    renamed-Replaces e before i h a =
        let g = put target (e tmp) (put tmp none e) in
        let f = put tmp none g in
        let w = renamed-IsWhole e i h in
        let arrived : g target ≡ some new = put_same target (e tmp) (put tmp none e) ∙ h in
        let at : last d (before ++ (g ∷ f ∷ [])) ≡ f = last-append2 d g f before in
        if_both (Replaces o) o.renames
          (record {
            seen = All-append IsWhole before (g ∷ f ∷ []) a (w, (removed-IsWhole g w arrived, tt));
            ended = ap (λ (x : Disk). x target) at ∙ put_other tmp none g target apart ∙ arrived;
            cleaned = inr (ap (λ (x : Disk). x tmp) at ∙ put_same tmp none g);
          })
          (with_remove-Replaces e before i a)

    filled-Replaces :
        (stop : Option ℕ) (e : Disk) (before : List Disk)
        → IsBeside e
        → All IsWhole before
        → Replaces o (filled o tmp target bytes mode stop e before)
    unfolding filled
    filled-Replaces (some n) e before i a =
        let f = put tmp (some (record { content = take n bytes; mode = mode })) e in
        let j =
          put-IsBeside e (some (record { content = take n bytes; mode = mode })) i (inl refl) in
        with_remove-Replaces f (before ++ (f ∷ [])) j (more before f a (IsBeside-IsWhole f j))
    filled-Replaces none e before i a =
        let f = put tmp (some new) e in
        let j = put-IsBeside e (some new) i (inl refl) in
        let b = more before f a (IsBeside-IsWhole f j) in
        if_both (Replaces o) o.closes
          (renamed-Replaces f (before ++ (f ∷ [])) j (put_same tmp (some new) e) b)
          (with_remove-Replaces f (before ++ (f ∷ [])) j b)

    in_temp-Replaces : d tmp ≡ none → Replaces o (in_temp o (some tmp) target bytes mode d)
    unfolding in_temp
    in_temp-Replaces absent =
        let c = put tmp (some (record { content = []; mode = 384 })) d in
        let e = put tmp (some (record { content = []; mode = mode })) c in
        let start : IsBeside d = record {
          same = λ q h. refl;
          safe = subst (Guarded mode) (sym absent) tt;
        } in
        let i =
          put-IsBeside d (some (record { content = []; mode = 384 })) start (inr (refl, refl)) in
        let j = put-IsBeside c (some (record { content = []; mode = mode })) i (inl refl) in
        let w = IsBeside-IsWhole c i in
        if_both (Replaces o) o.changes_mode
          (filled-Replaces o.stops_after e (c ∷ e ∷ []) j (w, (IsBeside-IsWhole e j, tt)))
          (with_remove-Replaces c (c ∷ []) i (w, tt))

-- Whichever call fails, and wherever the process dies: `Write` through a new temporary file beside
-- its target shows other processes the old target or the whole new one, with the mode of the old
-- one if there was one on which `Stat` succeeded, and else with the mode asked for; it changes no
-- other file, and its data is never in a temporary file of another mode. At its end the target is new if it succeeded and old if it failed, and the temporary
-- file is gone unless its removal failed.
pub write-Replaces :
    (o : Calls) (path bytes tmp : Bytes) (mode : ℕ) (d : Disk)
    → o.temp ≡ some tmp
    → d tmp ≡ none
    → ¬ (tmp ≡ get_or path o.target_of)
    → Replaces d
        (get_or path o.target_of)
        tmp
        bytes
        (mode_for o.stats mode (d (get_or path o.target_of)))
        o
        (write o path bytes mode d)
unfolding write
write-Replaces o path bytes tmp mode d made absent apart =
    let target = get_or path o.target_of in
    let m = mode_for o.stats mode (d target) in
    if_both (Replaces d target tmp bytes m o) o.makes_dirs
      (subst (λ t. Replaces d target tmp bytes m o (in_temp o t target bytes m d)) (sym made)
        (in_temp-Replaces d target tmp bytes m apart o absent))
      (record { seen = tt; ended = refl; cleaned = inr absent })
