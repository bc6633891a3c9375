-- ===== src/Progress/Writers/Completion.antt =====
-- When a writer is completed, and what the test of all writers says.
use apack.Base.{
  ℕ, ◌+◌, ◌≡◌, refl, String, Bool, true, false, ◌&&◌, ◌||◌, not, List, [], ◌∷◌, leb, arith,
}
use apack.Task.Manager.{Manager}
use apack.Progress.Writers.{Writer, Log, write, write_all}

abbrev pub sum : List ℕ → ℕ
sum [] = 0
sum (n ∷ ns) = n + sum ns

abbrev pub is_empty : List ℕ → Bool
is_empty [] = true
is_empty (n ∷ ns) = false

module _ (task_id : String) (m : Manager) (now : ℕ) where
  -- After writes of sizes `ns`, a writer is completed if it was before, or if there was a
  -- write and all that is written comes to the total.
  pub write_all-completed :
      (ns : List ℕ) (w : Writer) (l : Log)
      → ((write_all task_id m now ns (w, l)).0.written ≡ w.written + sum ns)
        × ((write_all task_id m now ns (w, l)).0.total ≡ w.total)
        × ((write_all task_id m now ns (w, l)).0.completed
            ≡ (w.completed || (not (is_empty ns) && leb w.total (w.written + sum ns))))
  unfolding write_all write
  write_all-completed [] w l = (omega arith, refl, ground arith)
  write_all-completed (n ∷ ns) w l =
      let (v, k) = write task_id m now n (w, l) in
      let (p, q, c) = write_all-completed ns v k in
      (ground (arith, p), ground (arith, q), ground (arith, c))
