-- ===== src/Build/Names.antt =====
-- The enumerators of `fuse_op` and the strings of `fuse_op_name` agree in every build.
use mathlib.Core.List.{map-append}
use mathlib.Core.Bool.{or_assoc}
use afs_cs.Base.{◌++◌}
use afs_cs.Base.{
  ◌≡◌, refl, Bool, true, false, ◌||◌, inl, inr, some, List, [], ◌∷◌, map, Str, codes, ◌==◌,
  if◌then◌else◌, get_elem?, Bool-cases, ==_iff, ap,
}
use afs_cs.Build.{
  Build, FuseOp, op_getattr, op_readlink, op_mknod, op_mkdir, op_unlink, op_rmdir, op_symlink,
  op_rename, op_link, op_chmod, op_chown, op_truncate, op_open, op_read, op_write, op_statfs,
  op_flush, op_release, op_fsync, op_setxattr, op_getxattr, op_listxattr, op_removexattr,
  op_opendir, op_readdir, op_releasedir, op_fsyncdir, op_access, op_creat, op_ftruncate,
  op_fgetattr, op_lock, op_ioctl, op_flock, op_fallocate, op_utimens, op_lstat, fuse_op,
  fuse_op_name, op_tag, index_of, op_name,
}

-- The name that each operation has in the messages and in `op_regexp`.
unfoldable pub spelled : FuseOp → Str
spelled op_getattr = codes "getattr"
spelled op_readlink = codes "readlink"
spelled op_mknod = codes "mknod"
spelled op_mkdir = codes "mkdir"
spelled op_unlink = codes "unlink"
spelled op_rmdir = codes "rmdir"
spelled op_symlink = codes "symlink"
spelled op_rename = codes "rename"
spelled op_link = codes "link"
spelled op_chmod = codes "chmod"
spelled op_chown = codes "chown"
spelled op_truncate = codes "truncate"
spelled op_open = codes "open"
spelled op_read = codes "read"
spelled op_write = codes "write"
spelled op_statfs = codes "statfs"
spelled op_flush = codes "flush"
spelled op_release = codes "release"
spelled op_fsync = codes "fsync"
spelled op_setxattr = codes "setxattr"
spelled op_getxattr = codes "getxattr"
spelled op_listxattr = codes "listxattr"
spelled op_removexattr = codes "removexattr"
spelled op_opendir = codes "opendir"
spelled op_readdir = codes "readdir"
spelled op_releasedir = codes "releasedir"
spelled op_fsyncdir = codes "fsyncdir"
spelled op_access = codes "access"
spelled op_creat = codes "creat"
spelled op_ftruncate = codes "ftruncate"
spelled op_fgetattr = codes "fgetattr"
spelled op_lock = codes "lock"
spelled op_ioctl = codes "ioctl"
spelled op_flock = codes "flock"
spelled op_fallocate = codes "fallocate"
spelled op_utimens = codes "utimens"
spelled op_lstat = codes "lstat"

-- The preprocessor keeps the operation.
abbrev pub is_enabled : FuseOp → List FuseOp → Bool
is_enabled op [] = false
is_enabled op (x ∷ xs) = op_tag x == op_tag op || is_enabled op xs

abbrev pub IsEnabled : Build → FuseOp → Type 0
IsEnabled b op = is_enabled op (fuse_op b) ≡ true

abbrev all_ops : List FuseOp
all_ops =
    op_getattr ∷ op_readlink ∷ op_mknod ∷ op_mkdir ∷ op_unlink ∷ op_rmdir ∷ op_symlink ∷ op_rename
    ∷ op_link ∷ op_chmod ∷ op_chown ∷ op_truncate ∷ op_open ∷ op_read ∷ op_write ∷ op_statfs
    ∷ op_flush ∷ op_release ∷ op_fsync ∷ op_setxattr ∷ op_getxattr ∷ op_listxattr ∷ op_removexattr
    ∷ op_opendir ∷ op_readdir ∷ op_releasedir ∷ op_fsyncdir ∷ op_access ∷ op_creat ∷ op_ftruncate
    ∷ op_fgetattr ∷ op_lock ∷ op_ioctl ∷ op_flock ∷ op_fallocate ∷ op_utimens ∷ op_lstat ∷ []

op_tag-get_elem? : (op : FuseOp) → get_elem? all_ops (op_tag op) ≡ some op
op_tag-get_elem? op_getattr = refl
op_tag-get_elem? _ = refl

pub eq_of_op_tag : (a b : FuseOp) → op_tag a ≡ op_tag b → a ≡ b
eq_of_op_tag a b h = cc (op_tag-get_elem? a, op_tag-get_elem? b, ap (get_elem? all_ops) h)

map_if {ℓ κ} :
    {A : Type ℓ} {B : Type κ} (f : A → B) (c : Bool) (xs ys : List A)
    → map f (if c then xs else ys) ≡ (if c then map f xs else map f ys)
map_if f true xs ys = refl
map_if f false xs ys = refl

fuse_op_name-eq-map : (b : Build) → fuse_op_name b ≡ map spelled (fuse_op b)
unfolding fuse_op_name fuse_op spelled
fuse_op_name-eq-map b = simp (map-append, map_if)

get_elem?-index_of :
    (op : FuseOp) (xs : List FuseOp)
    → is_enabled op xs ≡ true
    → get_elem? (map spelled xs) (index_of op xs) ≡ some (spelled op)
unfolding index_of
get_elem?-index_of op [] h = cc
get_elem?-index_of op (x ∷ xs) h = elim (Bool-cases (op_tag x == op_tag op)) [
  | inl same ↦ rw same (ap (λ o. some (spelled o)) (eq_of_op_tag x op ((==_iff _ _).0 same)))
  | inr other ↦ rw other (get_elem?-index_of op xs (rw other at h))
]

-- In every build, the entry of `fuse_op_name` at the value of an enumerator that the build keeps is
-- the name of that operation.
pub op_name-eq-spelled :
    (b : Build) (op : FuseOp) → IsEnabled b op → op_name b op ≡ some (spelled op)
unfolding op_name
op_name-eq-spelled b op h = rw fuse_op_name-eq-map (get_elem?-index_of op (fuse_op b) h)

pub is_enabled-append :
    (op : FuseOp) (xs ys : List FuseOp)
    → is_enabled op (xs ++ ys) ≡ (is_enabled op xs || is_enabled op ys)
is_enabled-append op [] ys = refl
is_enabled-append op (x ∷ xs) ys = rw (is_enabled-append op xs ys, or_assoc)

pub is_enabled-if :
    (op : FuseOp) (c : Bool) (xs ys : List FuseOp)
    → is_enabled op (if c then xs else ys) ≡ (if c then is_enabled op xs else is_enabled op ys)
is_enabled-if op true xs ys = refl
is_enabled-if op false xs ys = refl

pub ruleset enabled = (is_enabled-append, is_enabled-if)
