-- ===== src/Repo/Pull/Complete.antt =====
-- What a pull that succeeds has brought into the repository.
use apack.Base.{
  sym, ◌∙◌, ℕ, String, ◌≡◌, ◌⊎◌, Bool, true, false, ◌&&◌, Option, none, some, List, [], ◌∷◌, ok,
  Dict, insert, lookup, lookup-insert, any_of, str_eq, str_iff, str_refl, Every, Every-imp, arith,
  Bool-cases, inl, inr,
}
use apack.LayerDb.Layout.{Descriptor}
use apack.Spec.Types.{Artifact}
use apack.Repo.Layers.{LayerStore, IsLayerStore}
use apack.Repo.World.{Failure, Local, Remote, System}
use apack.Repo.Pull.{Plan, target}
use apack.Repo.Loop.{Job}
use apack.Repo.Pull.Effect.{Effect, failed, present, extracted, stored}
use apack.Repo.Pull.Run.{IsKept}

abbrev pub has_file : String → Dict (List ℕ) → Bool
has_file path files = elim (lookup path files) [ none ↦ false | some _ ↦ true ]

-- A descriptor of a list, as what a test of the list finds.
abbrev pub IsAmong : List Descriptor → Descriptor → Type 0
IsAmong ds c = (q : Descriptor → Bool) → q c ≡ true → any_of q ds ≡ true

pub Every-IsAmong : (ds : List Descriptor) → Every (IsAmong ds) ds
Every-IsAmong [] = tt
Every-IsAmong (d ∷ ds) = (
  λ q h. ground (arith, h),
  Every-imp ds (λ c among q h. ground (arith, among q h)) (Every-IsAmong ds),
)

pub has_file-insert :
    (p q : String) (b : List ℕ) (files : Dict (List ℕ))
    → has_file p files ≡ true
    → has_file p (insert q b files) ≡ true
has_file-insert p q b files h = ground (arith, h, lookup-insert q p b files)

pub has_file-insert_same :
    (p : String) (b : List ℕ) (files : Dict (List ℕ)) → has_file p (insert p b files) ≡ true
has_file-insert_same p b files = ground (arith, lookup-insert p p b files, str_refl p)

module _ (l : LayerStore) (r : Remote l) (os : System) (is_tar : String → Bool) where
  -- The blob of a descriptor is in the store, or its layer's file, or that of a layer of the list
  -- with the same digest, is in the directory.
  abbrev pub extracted_for : String → Artifact → Local l → Descriptor → Descriptor → Bool
  extracted_for dir a s d c =
      str_eq c.digest d.digest
      && (is_tar c.media_type && has_file (target l r os is_tar dir a c) s.files)

  abbrev pub IsPulled : String → Artifact → List Descriptor → Local l → Descriptor → Type 0
  IsPulled dir a ds s d = (l.exists s.db d ≡ ok true) ⊎ (any_of (extracted_for dir a s d) ds ≡ true)

  abbrev pub IsListedJob : List Descriptor → Job → Type 0
  IsListedJob ds j = IsAmong ds j.desc

  abbrev pub IsDone : String → Artifact → Job → Local l → Type 0
  IsDone dir a j s =
      (l.exists s.db j.desc ≡ ok true)
      ⊎ (is_tar j.desc.media_type ≡ true)
        × (has_file (target l r os is_tar dir a j.desc) s.files ≡ true)

  module _ (lawful : IsLayerStore l) (dir : String) (p : Plan) (ds : List Descriptor) where
    Effect-IsDone :
        (j : Job) (s t : Local l)
        → Effect l r os is_tar dir p.artifact j s t none
        → IsDone dir p.artifact j t
    Effect-IsDone j s t (failed x e h) = absurd (ground (arith, e))
    Effect-IsDone j s t (present e h) = inl (rw h e)
    Effect-IsDone j s t (extracted b absent tar h) =
        inr
          (tar, rw h (has_file-insert_same (target l r os is_tar dir p.artifact j.desc) b s.files))
    Effect-IsDone j s t (stored c v db absent tar f g e h) =
        inl (rw h (lawful.exists-set s.db db j.desc v e))

    IsDone-Effect :
        (i j : Job) (s t : Local l) (e : Option Failure)
        → Effect l r os is_tar dir p.artifact j s t e
        → IsDone dir p.artifact i s
        → IsDone dir p.artifact i t
    IsDone-Effect i j s t e (failed x _ h) d = rw h d
    IsDone-Effect i j s t e (present _ h) d = rw h d
    IsDone-Effect i j s t e (extracted b _ _ h) (inl d) = inl (rw h d)
    IsDone-Effect i j s t e (extracted b _ _ h) (inr (tar, d)) = inr (
      tar,
      rw h (
          has_file-insert (target l r os is_tar dir p.artifact i.desc)
            (target l r os is_tar dir p.artifact j.desc) b s.files d),
    )
    IsDone-Effect i j s t e (stored c v db _ _ _ _ w h) (inl d) =
        inl (rw h (lawful.exists-set_other s.db db i.desc j.desc v w d))
    IsDone-Effect i j s t e (stored c v db _ _ _ _ w h) (inr d) = inr (rw h d)

    pub IsDone-IsKept :
        IsKept l r os is_tar dir p (IsListedJob ds) (λ _. Unit {0}) (IsDone dir p.artifact)
    IsDone-IsKept = record {
      keep = λ j s t e q h effect. tt;
      done = λ j s t q h effect. Effect-IsDone j s t effect;
      stay = λ i j s t e q h effect. IsDone-Effect i j s t e effect;
    }

    -- A job that is done stands for every descriptor of its digest.
    pub IsDone-IsPulled :
        (js : List Job) (s : Local l) (d : Descriptor)
        → Every (IsListedJob ds) js
        → Every (λ j. IsDone dir p.artifact j s) js
        → any_of (λ j. str_eq j.desc.digest d.digest) js ≡ true
        → IsPulled dir p.artifact ds s d
    IsDone-IsPulled [] s d q e h = absurd (ground (arith, h))
    IsDone-IsPulled (j ∷ js) s d (q, qs) (e, es) h =
        elim (Bool-cases (str_eq j.desc.digest d.digest)) [
          | inr other ↦ IsDone-IsPulled js s d qs es (ground (arith, h, other))
          | inl same ↦ elim e [
            | inl there ↦ inl (
                sym (lawful.exists-digest s.db j.desc d ((str_iff j.desc.digest d.digest).0 same))
                ∙ there)
            | inr (tar, file) ↦
                inr (q (extracted_for dir p.artifact s d) (ground (arith, same, tar, file)))
          ]
        ]
