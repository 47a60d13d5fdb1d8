-- ===== src/Queue.antt =====
-- The data of unreliablefs/unreliablefs_errinj.h: the error injections and the queue of them.
use afs_cs.Base.{ℕ, Bool, List, [], ◌∷◌, Option, none, Str, codes, ◌==◌, some}

-- `errinj_type`
pub data ErrinjType : Type 0 where
  errinj_errno errinj_kill_caller errinj_noop errinj_slowdown : ErrinjType

-- The value of an enumerator.
abbrev pub errinj_code : ErrinjType → ℕ
errinj_code errinj_errno = 0
errinj_code errinj_kill_caller = 1
errinj_code errinj_noop = 2
errinj_code errinj_slowdown = 3

abbrev pub type_eq : ErrinjType → ErrinjType → Bool
type_eq a b = errinj_code a == errinj_code b

-- `errinj_name[]`
abbrev pub errinj_name : List Str
errinj_name =
    codes "errinj_errno"
    ∷ codes "errinj_kill_caller"
    ∷ codes "errinj_noop"
    ∷ codes "errinj_slowdown"
    ∷ []

-- A string that `strdup` returned: its block in the heap, and its bytes.
pub record OwnedStr : Type 0 where
  pub block : ℕ
  pub text : Str

-- `struct errinj_conf`; `block` is its address. Its links are the order of the queue.
pub record ErrinjConf : Type 0 where
  pub block : ℕ
  pub err_injection_name : Option OwnedStr
  pub op_regexp : Option OwnedStr
  pub path_regexp : Option OwnedStr
  pub errno_regexp : Option OwnedStr
  pub probability : ℕ
  pub duration : ℕ
  pub kind : ErrinjType

-- `struct err_inj_q`; `block` is the address of its head.
pub record ErrInjQ : Type 0 where
  pub block : ℕ
  pub entries : List ErrinjConf

-- What `calloc` returns, with the type set.
abbrev pub zeroed : ℕ → ErrinjType → ErrinjConf
zeroed p t = record {
  block = p;
  err_injection_name = none;
  op_regexp = none;
  path_regexp = none;
  errno_regexp = none;
  probability = 0;
  duration = 0;
  kind = t;
}

-- The entries of the queue, from `TAILQ_FIRST` on.
abbrev pub first_entries : Option ErrInjQ → List ErrinjConf
first_entries none = []
first_entries (some q) = q.entries
