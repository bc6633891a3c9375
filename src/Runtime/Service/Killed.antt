-- ===== src/Runtime/Service/Killed.antt =====
-- What `Kill` writes, whatever the order of the statuses.
use apack.Base.{
  ℕ, String, ◌≡◌, refl, sym, ◌∙◌, Option, none, some, List, [], ◌∷◌, Result, ok, err, ◌>>=◌,
  >>=-eq-ok, str_eq, if◌then◌else◌, arith, Bool-cases, Option-cases, Result-cases, inl, inr,
}
use apack.LayerDb.Layout.{Descriptor, ref_name}
use apack.LayerDb.Engine.{Error}
use apack.Runtime.State.{State, exited, update_status}
use apack.Runtime.Infer.{Failure, Host, stop}
use apack.Runtime.Service.{
  Distribution, Codec, World, no_state, ref_in, find_state, record_kill, kill, of_repo, state_desc,
  the_ref,
}

-- the reference of the last of the states that has an identifier
abbrev pub last_ref : String → List State → Option String → Option String
last_ref id [] r = r
last_ref id (s ∷ ss) r = last_ref id ss (if str_eq s.id id then some (ref_in s) else r)

abbrev pub last_state : List State → State → State
last_state [] s = s
last_state (t ∷ ts) s = last_state ts t

module _ (d : Distribution) (h : Host) (c : Codec) (pid_path log_path : String) where
  -- the states of the statuses, each read over the one before
  abbrev pub decoded : List Descriptor → State → Result Failure (List State)
  decoded [] st = ok []
  decoded (s ∷ ss) st = do t ← c.unmarshal st s.payload; ts ← decoded ss t; ok (t ∷ ts)

  find_state-last :
      (id : String) (ss : List Descriptor) (st : State) (r : Option String)
      → find_state d h c pid_path log_path id ss st r
        ≡ (decoded ss st >>= λ ts. ok (last_state ts st, last_ref id ts r))
  unfolding find_state
  find_state-last id [] st r = refl
  find_state-last id (s ∷ ss) st r = elim (Result-cases (c.unmarshal st s.payload)) [
    | inr (x, p) ↦ ground (arith, p)
    | inl (t, p) ↦
        let rest = find_state-last id ss t (if str_eq t.id id then some (ref_in t) else r) in
        elim (Result-cases (decoded ss t)) [
          | inr (x, q) ↦ ground (arith, p, q, rest)
          | inl (ts, q) ↦ ground (arith, p, q, rest)
        ]
  ]

  of_repo-eq-ok : {A : Type 0} (x : Result Error A) {a : A} → of_repo d h c x ≡ ok a → x ≡ ok a
  of_repo-eq-ok (ok b) e = ground (arith, e)
  of_repo-eq-ok (err y) e = absurd (ground (arith, e))

  the_ref-eq-ok :
      (id : String) (r : Option String) {ref : String}
      → the_ref d h c pid_path log_path id r ≡ ok ref
      → r ≡ some ref
  the_ref-eq-ok id none e = absurd (ground (arith, e))
  the_ref-eq-ok id (some r) e = elim (Bool-cases (str_eq r "")) [
    | inl p ↦ absurd (ground (arith, e, p))
    | inr p ↦ ground (arith, e, p)
  ]

  -- What stands in the store after a kill: the status of the last state, under the reference found.
  abbrev pub IsRecorded : ℕ → String → d.Store → d.Store → Type 0
  IsRecorded now id s t =
      (ss : List Descriptor) × (ts : List State) × (ref : String) × (b : List ℕ) × (d.statuses s
        ≡ ok ss)
      × (decoded ss no_state ≡ ok ts)
      × (last_ref id ts none ≡ some ref)
      × (let st = last_state ts no_state in
          c.marshal (update_status c.show exited st.create_at now st) ≡ ok b)
      × (d.state s ref (record (state_desc d h c b) { annotations = (ref_name, ref) ∷ [] }) ≡ ok t)

  record_kill-last :
      (now : ℕ) (id : String) (s t : d.Store)
      → record_kill d h c pid_path log_path now id s ≡ ok t
      → IsRecorded now id s t
  unfolding record_kill
  record_kill-last now id s t k =
      let (ss, p, k1) = >>=-eq-ok (of_repo d h c (d.statuses s)) _ k in
      let ((st, r), q, k2) =
        >>=-eq-ok (find_state d h c pid_path log_path id ss no_state none) _ k1 in
      let (ref, u, k3) = >>=-eq-ok (the_ref d h c pid_path log_path id r) _ k2 in
      let (b, v, k4) =
        >>=-eq-ok (c.marshal (update_status c.show exited st.create_at now st)) _ k3 in
      let (ts, w, x) =
        >>=-eq-ok (decoded ss no_state) _ (sym (find_state-last id ss no_state none) ∙ q) in
      let last : last_state ts no_state ≡ st = ground (arith, x) in
      let found : last_ref id ts none ≡ r = ground (arith, x) in
      (
        ss,
        ts,
        ref,
        b,
        of_repo-eq-ok (d.statuses s) p,
        w,
        found ∙ the_ref-eq-ok id r u,
        rw last v,
        of_repo-eq-ok (d.state s ref _) k4,
      )

  -- A kill that succeeds writes one status: as exited, the state of the last status of the
  -- store, whichever model that is of, under the reference of the last status with the
  -- identifier.
  pub kill-last_state :
      (now : ℕ) (id : String) (w v : World d h c pid_path log_path)
      → kill d h c pid_path log_path now id w ≡ (v, none)
      → IsRecorded now id w.store v.store
  unfolding kill
  kill-last_state now id w v k =
      let (procs, e) = stop h pid_path log_path id w.procs in
      elim (Option-cases e) [
        | inr (x, p) ↦ absurd (ground (arith, k, p))
        | inl p ↦ elim (Result-cases (record_kill d h c pid_path log_path now id w.store)) [
          | inr (x, q) ↦ absurd (ground (arith, k, p, q))
          | inl (store, q) ↦
              let same : store ≡ v.store = ground (arith, k, p, q) in
              rw (sym same) (record_kill-last now id w.store store q)
        ]
      ]
