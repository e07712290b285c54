-- ===== src/Integrations/Folders.antt =====
-- The operating system's directories, as titoos/integrations/files.py uses them through the `os`
-- module: a tree of files, directories and symbolic links, and each call on the descriptor of an
-- open directory. A descriptor stands for the entries of its directory. A text file holds
-- characters and has the size of their UTF-8 form; a file that is not UTF-8 has a size only. The
-- calls are those of Linux with O_NOFOLLOW, and every permission is given.
pub mod Laws
use Prim.Native.String.{len}
use tito_os.Prelude.{
  String, Bool, true, false, List, [], ◌∷◌, Option, none, some, ◌==◌, if◌then◌else◌, ℕ, ◌+◌,
}
use tito_os.Strings.{concat}
use tito_os.Errors.{
  Result, ok, err, Error, os_error, no_entry, entry_exists, not_directory, is_directory,
  symlink_loop, Exec,
}

pub data Content : Type 0 where
  text : String → Content
  binary : ℕ → Content

mutual
  pub data Node : Type 0 where
    file : Content → Node
    directory : Entries → Node
    symlink : String → Node

  pub data Entries : Type 0 where
    end : Entries
    entry : String → Node → Entries → Entries

-- `os.fstat(fd).st_size`
unfoldable pub size : Content → ℕ
size (text s) = len s
size (binary n) = n

-- Text written at the end of a file. Bytes that are not UTF-8 stay so.
unfoldable pub extended : Content → String → Content
extended (text s) more = text (concat s more)
extended (binary n) more = binary (n + len more)

-- the entry of that name
unfoldable pub lookup : String → Entries → Option Node
lookup name end = none
lookup name (entry k n es) = if k == name then some n else lookup name es

unfoldable pub put : String → Node → Entries → Entries
put name node end = entry name node end
put name node (entry k n es) = if k == name then entry k node es else entry k n (put name node es)

unfoldable pub remove : String → Entries → Entries
remove name end = end
remove name (entry k n es) = let rest = remove name es in if k == name then rest else entry k n rest

-- `os.listdir(fd)`
unfoldable pub listdir : Entries → List String
listdir end = []
listdir (entry k n es) = k ∷ listdir es

-- `os.mkdir(name, dir_fd=fd)`: any entry of that name is in the way, a symbolic link too.
unfoldable pub mkdir : String → Exec Entries Unit
unfolding lookup put
mkdir name es = elim (lookup name es) [
  | none ↦ (ok tt, put name (directory end) es)
  | some _ ↦ (err (os_error entry_exists), es)
]

-- the entries of a node that opens as a directory
abbrev pub as_directory : Option Node → Result Entries
as_directory none = err (os_error no_entry)
as_directory (some (directory es)) = ok es
as_directory (some (file _)) = err (os_error not_directory)
as_directory (some (symlink _)) = err (os_error not_directory)

-- `os.open(name, O_RDONLY | O_DIRECTORY | O_NOFOLLOW, dir_fd=fd)`
unfoldable pub open_directory : String → Entries → Result Entries
unfolding lookup
open_directory name es = as_directory (lookup name es)

-- `os.stat(name, dir_fd=fd, follow_symlinks=False)`
unfoldable pub lstat : String → Entries → Result Node
unfolding lookup
lstat name es = elim (lookup name es) [ none ↦ err (os_error no_entry) | some n ↦ ok n ]

-- `stat.S_ISLNK(info.st_mode)`
abbrev pub is_link : Node → Bool
is_link (symlink _) = true
is_link _ = false

abbrev pub removed : String → Option Node → Exec Entries Unit
removed name none es = (err (os_error no_entry), es)
removed name (some (directory _)) es = (err (os_error is_directory), es)
removed name (some _) es = (ok tt, remove name es)

-- `os.unlink(name, dir_fd=fd)`
unfoldable pub unlink : String → Exec Entries Unit
unfolding lookup remove
unlink name es = removed name (lookup name es) es

-- the flags O_CREAT and O_TRUNC
pub record Flags : Type 0 where
  pub creates : Bool
  pub truncates : Bool

-- The content that an open file starts with.
abbrev pub opened : Flags → Option Node → Result Content
opened flags none = if flags.creates then ok (text "") else err (os_error no_entry)
opened flags (some (file c)) = ok (if flags.truncates then text "" else c)
opened flags (some (directory _)) = err (os_error is_directory)
opened flags (some (symlink _)) = err (os_error symlink_loop)

-- `os.open(name, flags | O_NOFOLLOW, 0o600, dir_fd=fd)` with the `os.fdopen` behind it, which is
-- what refuses a directory that was opened to be read.
unfoldable pub open_file : Flags → String → Exec Entries Content
unfolding lookup put
open_file flags name es = elim (opened flags (lookup name es)) [
  | err e ↦ (err e, es)
  | ok c ↦ (ok c, put name (file c) es)
]
