-- ===== src/Os.antt =====
-- rm/librmcommon/dir.cpp over the operating system's calls. What the kernel answers is a parameter:
-- every call may see other files than the one before it.
use konro.Base.{ℕ, Bool, true, false, Option, List, [], ◌∷◌, ◌++◌, ◌==◌, if◌then◌else◌}
use konro.Effect.{M, ok, exception, ◌>>=◌, ◌>>◌, pure}
use konro.Text.{Bytes}

-- How a write through an ofstream ends.
pub data Written : Type 0 where
  done : Written
  not_opened : Written
  not_written : Written

pub record Entry : Type 0 where
  pub name : Bytes
  pub is_dir : Bool

pub record Os : Type 1 where
  pub World : Type 0
  -- The lines of a file that is read to its end; `none` if it cannot be opened.
  pub read_lines : Bytes → World → Option (List Bytes) × World
  -- readlink into a buffer of that size; `none` where it returns 0 or -1.
  pub read_link : ℕ → Bytes → World → Option Bytes × World
  -- The names in a directory, "." and ".." included; `none` if it cannot be opened.
  pub list_dir : Bytes → World → Option (List Bytes) × World
  -- The regular files and directories in a directory, without "." and "..".
  pub entries : Bytes → World → Option (List Entry) × World
  -- stat reports a regular file; lstat reports a directory
  pub file_exists : Bytes → World → Bool × World
  pub dir_exists : Bytes → World → Bool × World
  -- The inode that open and fstat report; `none` where one of them fails.
  pub inode_of : Bytes → World → Option ℕ × World
  pub write : Bytes → Bytes → World → Written × World
  -- Whether the directory is there afterwards: EEXIST counts as success.
  pub mkdir : Bytes → World → Bool × World
  pub rmdir : Bytes → World → Bool × World

-- A call that does not throw.
abbrev pub call : {W A : Type 0} → (W → A × W) → M W A
call f w = let r = f w in (ok r.0, r.1)

abbrev pub throw : {W A : Type 0} → M W A
throw w = (exception, w)

-- throws, unless the test holds
abbrev pub check : {W : Type 0} → Bool → M W (Unit {0})
check true w = (ok tt, w)
check false w = (exception, w)

module _ (os : Os) where
  unfoldable pub create_dir : Bytes → M os.World (Unit {0})
  create_dir path = do
    there ← call (os.dir_exists path)
    (if there then pure tt else (do made ← call (os.mkdir path); check made))

  -- The loop of `mkdir_r` over the rest of the path: a directory is made at each separator and at the
  -- end, unless the path ends in the separator before it.
  unfoldable pub make_dirs : Bytes → Bytes → M os.World (Unit {0})
  unfolding create_dir
  make_dirs front [] = create_dir front
  make_dirs front (c ∷ []) = if c == b'/' then create_dir front else create_dir (front ++ c ∷ [])
  make_dirs front (c ∷ d ∷ rest) =
      let further = make_dirs (front ++ c ∷ []) (d ∷ rest) in
      if c == b'/' then (do create_dir front; further) else further

  unfoldable pub mkdir_r : Bytes → M os.World (Unit {0})
  unfolding make_dirs create_dir
  mkdir_r [] = pure tt
  mkdir_r (c ∷ rest) = if c == b'/' then make_dirs (c ∷ []) rest else make_dirs [] (c ∷ rest)

  unfoldable pub remove_dir : Bytes → M os.World (Unit {0})
  remove_dir path = do gone ← call (os.rmdir path); check gone
