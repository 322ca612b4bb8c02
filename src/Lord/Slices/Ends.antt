-- ===== src/Lord/Slices/Ends.antt =====
-- The end of the slice of a process: `Destroy` of internal/lord/cgroup.go, as `handleSpawn` calls it,
-- once for each process.
use etronium_scdr.Prelude.{◌≡◌, refl, ap, ◌∙◌, none}
use etronium_scdr.Config.{Text}
use etronium_scdr.Lord.Slices.{
  Files, CgroupManager, Removal, busy, removed, not_removed, left_by, file, kill_slice, destroy,
}

module _ {K : Type 0} (fs : Files K) (m : CgroupManager) (id : Text) (k : K) where
  -- Where cgroup.kill cannot be read, a slice that still holds a process is left as the attempt to remove
  -- it leaves it: the kernel is never asked to kill what is in it, and there is no error.
  pub destroy_without_kill :
      fs.read (file fs (fs.join m.base_path id) "cgroup.kill") k ≡ none
      → (fs.remove (fs.join m.base_path id) k).0 ≡ busy
      → destroy fs m id k ≡ (none, (fs.remove (fs.join m.base_path id) k).1)
  unfolding destroy kill_slice
  destroy_without_kill unreadable held =
      let slice : Text = fs.join m.base_path id in
      let spared : kill_slice fs slice k ≡ k = rw (unreadable, kill_slice) refl in
      ap (λ x. left_by fs (fs.remove slice x)) spared ∙ held_by (fs.remove slice k) held
    where
      held_by : (x : Removal × K) → x.0 ≡ busy → left_by fs x ≡ (none, x.1)
      held_by (busy, u) h = refl
      held_by (removed, u) h = absurd (cc)
      held_by (not_removed, u) h = absurd (cc)
