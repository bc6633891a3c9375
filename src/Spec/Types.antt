-- ===== src/Spec/Types.antt =====
-- The types of internal/spec/spec.go and of the end of internal/spec/gen.go. Of the model
-- description only the licenses are kept, and the free extensions are left out: nothing here reads
-- or writes the rest.
use apack.Base.{ℕ, String, List}

pub record Model : Type 0 where
  pub id : String
  pub name : String
  pub model_type : String
  pub path : String
  pub size : ℕ
  pub license : String
  pub description : String

pub record Code : Type 0 where
  pub id : String
  pub path : String
  pub size : ℕ
  pub description : String
  pub license : String

pub record DataSet : Type 0 where
  pub id : String
  pub name : String
  pub path : String
  pub size : ℕ
  pub description : String
  pub license : String

pub record Doc : Type 0 where
  pub id : String
  pub path : String
  pub size : ℕ
  pub description : String

pub record Package : Type 0 where
  pub name : String
  pub workspace : String
  pub reference : String
  pub size : ℕ
  pub digest : String
  pub models : List Model
  pub datasets : List DataSet
  pub codes : List Code
  pub docs : List Doc

pub record Artifact : Type 0 where
  pub oci_version : String
  pub pack : Package
  pub licenses : List String

pub record File : Type 0 where
  pub id : String
  pub name : String
  pub path : String
  pub size : ℕ

-- A directory: its name, its path, its files and its subdirectories.
mutual
  pub data Directory : Type 0 where
    directory : String → String → List File → Directories → Directory

  pub data Directories : Type 0 where
    no_more : Directories
    also : Directory → Directories → Directories

abbrev pub name_of : Directory → String
name_of (directory name path files subdirs) = name

abbrev pub path_of : Directory → String
path_of (directory name path files subdirs) = path

abbrev pub files_of : Directory → List File
files_of (directory name path files subdirs) = files

abbrev pub subdirs_of : Directory → Directories
subdirs_of (directory name path files subdirs) = subdirs

-- the composite literals that fill in an ID, a path and a size
abbrev pub model_of : File → Model
model_of f = record {
  id = f.id;
  name = "";
  model_type = "";
  path = f.path;
  size = f.size;
  license = "";
  description = "";
}

abbrev pub dataset_of : File → DataSet
dataset_of f = record {
  id = f.id;
  name = "";
  path = f.path;
  size = f.size;
  description = "";
  license = "";
}

abbrev pub doc_of : File → Doc
doc_of f = record { id = f.id; path = f.path; size = f.size; description = "" }

-- those that fill in a path alone
abbrev pub path_code : String → Code
path_code p = record { id = ""; path = p; size = 0; description = ""; license = "" }

abbrev pub path_dataset : String → DataSet
path_dataset p = record { id = ""; name = ""; path = p; size = 0; description = ""; license = "" }

abbrev pub path_doc : String → Doc
path_doc p = record { id = ""; path = p; size = 0; description = "" }
