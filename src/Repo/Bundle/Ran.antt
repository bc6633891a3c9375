-- ===== src/Repo/Bundle/Ran.antt =====
-- What a bundle that succeeds has made.
use apack.Base.{ℕ, String, ◌≡◌, Bool, List, length, keep_if}
use apack.Task.Manager.{Manager}
use apack.Repo.Layers.{LayerStore}
use apack.Repo.World.{System}
use apack.Repo.Bundle.{Content, Makefile, Job, Bundled}
use apack.Repo.Bundle.Aligned.{has_path, IsAligned}

module _ (l : LayerStore) (mf : Makefile l) (os : System) (task_id : String) (m : Manager) (now : ℕ)
    (snap_path : String) (order : List Job → List Job) where
  -- The layers and the digests are made of contents in one order, and those are the contents with a
  -- path, each as often as it is there.
  abbrev pub IsBundle : List Content → Bundled l → Type 0
  IsBundle cs t =
      (made : List Content) × IsAligned l mf os made t.layers t.diff_ids
      × ((q : Content → Bool) → length (keep_if q made) ≡ length (keep_if q (keep_if has_path cs)))
