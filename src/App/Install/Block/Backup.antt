-- ===== src/App/Install/Block/Backup.antt =====
-- A file that is rewritten is not lost.
use mcpurl.Prelude.{◌≡◌, ◌⊎◌, refl, sym, ap, ◌∙◌, Option, none, some, inl, inr, arith, Bool-cases}
use mcpurl.Prelude.Bytes.{Bytes, codes, equal_self, equal-cases}
use mcpurl.Prelude.Lists.{length, length-append}
use mcpurl.App.Toml.{splice_profile_block}
use mcpurl.App.Install.{
  Machine, State, Result, unwritable, unreadable, with_file, write_file, and_then, backup_of,
  replace_config,
}
use mcpurl.App.Install.Block.{rewritten, on_config, edit_profile_block}

with_file_same :
    (path content : Bytes) (files : Bytes → Option Bytes)
    → with_file path content files path ≡ some content
unfolding with_file
with_file_same path content files = rw (equal_self path) refl

with_file_other :
    (path content : Bytes) (files : Bytes → Option Bytes) (q : Bytes)
    → ¬ (path ≡ q)
    → with_file path content files q ≡ files q
unfolding with_file
with_file_other path content files q h = elim (equal-cases path q) [
  | inl (e, same) ↦ absurd (h same)
  | inr (e, other) ↦ rw e refl
]

module _ (m : Machine) where
  backup_apart : (path : Bytes) → ¬ (path ≡ backup_of m path)
  backup_apart path e = absurd (omega (arith, ap length e, length-append path (codes ".bak")))

  -- What the file held is in it still or in its backup, no other file has changed, and neither has
  -- the table of profiles.
  pub record Preserves (path : Bytes) (s : State) (r : Result) : Type 0 where
    pub content : (r.1.files path ≡ s.files path) ⊎ (r.1.files (backup_of m path) ≡ s.files path)
    pub others : (q : Bytes) → ¬ (path ≡ q) → ¬ (backup_of m path ≡ q) → r.1.files q ≡ s.files q
    pub profiles : r.1.profiles ≡ s.profiles

  unchanged : (path : Bytes) (s : State) (r : Result) → r.1 ≡ s → Preserves path s r
  unchanged path s r e = record {
    content = inl (ap (λ (t : State). t.files path) e);
    others = λ q h k. ap (λ (t : State). t.files q) e;
    profiles = ap (λ (t : State). t.profiles) e;
  }

  module _ (path original content : Bytes) (s : State) (was : s.files path ≡ some original) where
    abbrev backed : State
    backed = record s { files = with_file (backup_of m path) original s.files }

    second : Preserves path s (write_file m path content backed)
    unfolding write_file
    second =
        let bak = backup_of m path in
        let apart = backup_apart path in
        let back : (q : Bytes) → ¬ (bak ≡ q) → backed.files q ≡ s.files q =
          with_file_other bak original s.files in
        elim (Bool-cases (m.may_write path)) [
          | inr bad ↦ rw bad (record {
            content = inl (back path (λ e. apart (sym e)));
            others = λ q h k. back q k;
            profiles = refl;
          })
          | inl fine ↦ rw fine (record {
            content = inr (
                with_file_other path content backed.files bak apart
                ∙ with_file_same bak original s.files
                ∙ sym was);
            others = λ q h k. with_file_other path content backed.files q h ∙ back q k;
            profiles = refl;
          })
        ]

    replace_config-Preserves : Preserves path s (replace_config m path (some original) content s)
    unfolding replace_config and_then write_file
    replace_config-Preserves = elim (Bool-cases (m.may_write (backup_of m path))) [
      | inr bad ↦ rw bad (unchanged path s (some (unwritable (backup_of m path)), s) refl)
      | inl fine ↦ rw fine second
    ]

  rewritten-Preserves :
      (name original : Bytes) (s : State) (out : Option Bytes)
      → s.files m.config_path ≡ some original
      → Preserves m.config_path s (rewritten m name original s out)
  unfolding rewritten
  rewritten-Preserves name original s none e = unchanged m.config_path s _ refl
  rewritten-Preserves name original s (some out) e =
      replace_config-Preserves m.config_path original out s e

  on_config-Preserves :
      (name block : Bytes) (s : State) (o : Option Bytes)
      → s.files m.config_path ≡ o
      → Preserves m.config_path s (on_config m name block s o)
  unfolding on_config
  on_config-Preserves name block s none e = unchanged m.config_path s _ refl
  on_config-Preserves name block s (some original) e =
      elim (Bool-cases (m.may_read m.config_path)) [
        | inr bad ↦ rw bad (unchanged m.config_path s (some (unreadable m.config_path), s) refl)
        | inl fine ↦
            rw fine
              (rewritten-Preserves name original s (splice_profile_block original name block) e)
      ]

  -- Whichever write fails: after editProfileBlock, what config.toml held is in it still or in its
  -- backup, no other file has changed, and neither has the table of profiles.
  pub edit_profile_block-Preserves :
      (name block : Bytes) (s : State)
      → Preserves m.config_path s (edit_profile_block m name block s)
  unfolding edit_profile_block
  edit_profile_block-Preserves name block s =
      on_config-Preserves name block s (s.files m.config_path) refl
