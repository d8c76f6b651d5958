-- ===== src/Commands/System.antt =====
-- What the commands call of the operating system, of filepath, and of the version and go.mod
-- libraries (golang.org/x/mod, go/version). `W` is the state of the files.
use go_bricks_openapi.Prelude.{String, Bool, Option, List}
use go_bricks_openapi.Prelude.Int.{ℤ}
use go_bricks_openapi.Commands.Monad.{Result}

-- The error of os.Stat: none, one that os.IsNotExist accepts, or another.
pub data Stat : Type 0 where
  present absent : Stat
  denied : String → Stat

-- filepath.EvalSymlinks, with its errors told apart in the same way.
pub data Link : Type 0 where
  resolves : String → Link
  dangling : Link
  broken : String → Link

-- os.Remove, likewise.
pub data Removal : Type 0 where
  removed missing : Removal
  kept : String → Removal

mutual
  -- What filepath.WalkDir finds at a path: a file, a directory with its entries in order, or an
  -- entry that is passed on with an error.
  pub data Tree : Type 0 where
    leaf_file : String → Tree
    directory : String → Forest → Tree
    no_access : Tree

  pub data Forest : Type 0 where
    no_entry : Forest
    and_entry : Tree → Forest → Forest

pub record System (W : Type 0) : Type 1 where
  pub stat : W → String → Stat
  pub read_file : W → String → Result String
  pub eval_symlinks : W → String → Link
  pub walk : W → String → Tree
  pub remove : W → String → Removal × W
  -- An error of the call, or none.
  pub mkdir_all : W → String → Option String × W
  pub write_file : W → String → String → Option String × W
  -- filepath.Clean, Abs, IsAbs, Base, Dir and Join
  pub clean : String → String
  pub abs : String → Result String
  pub is_abs : String → Bool
  pub base : String → String
  pub dir : String → String
  pub join_path : String → String → String
  -- runtime.Version, and the two variables of go/build that are printed
  pub runtime_version : String
  pub goroot : String
  pub gopath : String

-- A require line: path and version. A replace line: old path and version, new path and version.
pub record Require : Type 0 where
  pub path : String
  pub version : String

pub record Replace : Type 0 where
  pub old_path : String
  pub old_version : String
  pub new_path : String
  pub new_version : String

pub record ModFile : Type 0 where
  pub requires : List Require
  pub replaces : List Replace

pub record Versions : Type 0 where
  -- modfile.Parse(name, content)
  pub parse_mod : String → String → Result ModFile
  -- module.IsPseudoVersion
  pub is_pseudo_version : String → Bool
  -- semver.IsValid and semver.Compare
  pub semver_is_valid : String → Bool
  pub semver_compare : String → String → ℤ
  -- version.IsValid, version.Lang and version.Compare of go/version
  pub go_is_valid : String → Bool
  pub go_lang : String → String
  pub go_compare : String → String → ℤ
