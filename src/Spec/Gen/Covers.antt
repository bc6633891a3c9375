-- ===== src/Spec/Gen/Covers.antt =====
-- `Gen`: the files and the subdirectories at the top of the directory, in the artifact's sections.
use apack.Base.{String, ◌≡◌, true, false, ◌&&◌, ◌||◌, [], arith, all_of}
use apack.Spec.Types.{Artifact, Directory, path_of, files_of, subdirs_of}
use apack.Spec.Kinds.{is_default_artifact_name}
use apack.Spec.Gen.{Tools, Scan, scan_files, scan_dirs, add_models, add_codes, gen}
use apack.Spec.Gen.Listed.{kept, all_of_imp, all_dirs, all_dirs_imp, no_dirs, covered}
use apack.Spec.Gen.Files.{taken, scan_files-taken}
use apack.Spec.Gen.Dirs.{dir_taken, scan_dirs-kept, scan_dirs-taken}
use apack.Spec.Gen.Sections.{add_models-kept, add_codes-covered, add_license-listed}

module _ (tools : Tools) (d : Directory) (a : Artifact) where
  begun : Scan
  begun = record {
    pack = a.pack;
    catch_all = false;
    model_files = [];
    config_files = [];
    license = "";
    unprocessed = [];
  }

  scanned : Scan
  unfolding begun
  scanned = scan_dirs (subdirs_of d) (scan_files tools (files_of d) begun)

  gen-kept : (q : String) → kept q scanned ≡ true → covered q (gen tools d a).pack ≡ true
  unfolding gen scanned
  gen-kept q h =
      let s = scanned in
      let b : Artifact = record {
        oci_version = "1.0.1";
        pack = add_codes s (add_models s);
        licenses = a.licenses;
      } in
      ground (
        arith,
        add_codes-covered s (add_models s) q (add_models-kept s q h),
        add_license-listed s.license b q,
        add_license-listed s.license b ".",
      )

  -- Every file at the top of the directory, if it is not an artifact description itself, is an
  -- item of the generated artifact by its name or its path, or the artifact has a section for
  -- the whole directory.
  pub gen_files :
      all_of
        (λ f.
          is_default_artifact_name f.name
          || covered f.name (gen tools d a).pack
          || covered f.path (gen tools d a).pack)
        (files_of d)
      ≡ true
  unfolding scanned
  gen_files =
      all_of_imp (λ f. taken tools (scan_files tools (files_of d) begun) f)
        (λ f.
          is_default_artifact_name f.name
          || covered f.name (gen tools d a).pack
          || covered f.path (gen tools d a).pack)
        (files_of d)
        (λ f h. ground (
          arith,
          h,
          scan_dirs-kept (subdirs_of d) f.name (scan_files tools (files_of d) begun),
          scan_dirs-kept (subdirs_of d) f.path (scan_files tools (files_of d) begun),
          gen-kept f.name,
          gen-kept f.path,
        ))
        (scan_files-taken tools (files_of d) begun)

  -- Every subdirectory is an item of the generated artifact by its path, or it has no
  -- subdirectories of its own and all of its files are items by theirs, or the artifact has a
  -- section for the whole directory.
  pub gen_dirs :
      all_dirs
        (λ x.
          covered (path_of x) (gen tools d a).pack
          || no_dirs (subdirs_of x)
            && all_of (λ f. covered f.path (gen tools d a).pack) (files_of x))
        (subdirs_of d)
      ≡ true
  unfolding scanned
  gen_dirs =
      all_dirs_imp (dir_taken scanned)
        (λ x.
          covered (path_of x) (gen tools d a).pack
          || no_dirs (subdirs_of x)
            && all_of (λ f. covered f.path (gen tools d a).pack) (files_of x))
        (subdirs_of d)
        (λ x h. ground (
          arith,
          h,
          gen-kept (path_of x),
          all_of_imp (λ f. kept f.path scanned) (λ f. covered f.path (gen tools d a).pack)
              (files_of x) (λ f. gen-kept f.path),
        ))
        (scan_dirs-taken (subdirs_of d) (scan_files tools (files_of d) begun))
