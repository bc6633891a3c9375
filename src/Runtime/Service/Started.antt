-- ===== src/Runtime/Service/Started.antt =====
-- The table of processes after `Run`.
use apack.Base.{
  ℕ, String, ◌≡◌, Option, some, List, ok, >>=-eq-ok, arith, Option-cases, Result-cases, inl, inr,
  lookup, insert, lookup-insert, str_refl,
}
use apack.LayerDb.Layout.{Descriptor}
use apack.Spec.Types.{Model}
use apack.Runtime.Infer.{Params, Host, Procs, spawning, validate, with_files, status, shortid}
use apack.Runtime.Service.{
  Distribution, Codec, World, prepare, record_run, run, first_model, requested,
}

module _ (d : Distribution) (h : Host) (c : Codec) (pid_path log_path : String) where
  spawning-insert :
      (p q : Params) (desc : Descriptor) (id : String) (s t : Procs h pid_path log_path)
      → spawning h pid_path log_path p s ≡ ok (q, (desc, (id, t)))
      → t ≡ insert id (h.make q) s
  unfolding spawning
  spawning-insert p q desc id s t k =
      let (a, _, k1) = >>=-eq-ok (validate (with_files h pid_path log_path p)) _ k in
      let (b, _, k2) = >>=-eq-ok (h.marshal_params a) _ k1 in
      let (i, _, k3) = >>=-eq-ok (shortid a.id) _ k2 in ground (arith, k3)

  prepare-insert :
      (path : String) (models : Option (List Model)) (params q : Params) (desc : Descriptor)
      (id : String) (s t : Procs h pid_path log_path)
      → prepare d h c pid_path log_path path models params s ≡ ok (q, (desc, (id, t)))
      → t ≡ insert id (h.make q) s
  unfolding prepare
  prepare-insert path models params q desc id s t k =
      let (m, _, k1) = >>=-eq-ok (first_model d h c pid_path log_path models) _ k in
      let (p1, _, k2) = >>=-eq-ok h.free_port _ k1 in
      let (_, _, k3) = >>=-eq-ok h.second_port _ k2 in
      spawning-insert (requested d h c pid_path log_path path m params p1) q desc id s t k3

  -- Once the process has been made, it is in the table after the run as it was left by its
  -- start, whatever failed later: no error of the run stops it.
  pub run-status :
      (now : ℕ) (path : String) (models : Option (List Model)) (params q : Params)
      (desc : Descriptor) (id : String) (procs : Procs h pid_path log_path)
      (w : World d h c pid_path log_path)
      → prepare d h c pid_path log_path path models params w.procs ≡ ok (q, (desc, (id, procs)))
      → status h pid_path log_path id (run d h c pid_path log_path now path models params w).0.procs
        ≡ some (h.exec (h.make q)).0
  unfolding run status
  run-status now path models params q desc id procs w k =
      let made = prepare-insert path models params q desc id w.procs procs k in
      let found : lookup id procs ≡ some (h.make q) =
        rw made (ground (arith, lookup-insert id id (h.make q) w.procs, str_refl id)) in
      let (p, e) = h.exec (h.make q) in
      let kept = lookup-insert id id p procs in
      elim (Option-cases e) [
        | inr (x, f) ↦ ground (arith, k, found, f, kept, str_refl id)
        | inl f ↦ elim (Result-cases (record_run d h c pid_path log_path now id q desc w.store)) [
          | inr (x, g) ↦ ground (arith, k, found, f, g, kept, str_refl id)
          | inl (store, g) ↦ ground (arith, k, found, f, g, kept, str_refl id)
        ]
      ]
