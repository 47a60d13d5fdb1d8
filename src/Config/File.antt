-- ===== src/Config/File.antt =====
-- What `config_init` makes of a whole configuration file.
use afs_cs.Base.{
  ◌≤◌, ℕ, ◌+◌, is_negative, false, ℤ, pos, ◌==◌, ◌≡◌, refl, true, some, List, [], ◌∷◌, Str, length,
  arith,
}
use afs_cs.Base.Run.{Ensures, ensures, Ensures-bind, Ensures-mono, Ensures-some}
use afs_cs.Queue.{ErrinjConf, ErrInjQ}
use afs_cs.System.{Env, Heap, State, IniItem, pair, malformed}
use afs_cs.System.Kernel.{sys_access}
use afs_cs.System.Memory.{sys, malloc, update}
use afs_cs.System.Accounts.{Accounts, Accounts-move, malloc-Accounts, bit}
use afs_cs.Config.{
  conf_option_handler, ini_lines, ini_found, ini_parse, load_config, init_queue, config_init,
}
use afs_cs.Config.Ownership.{held_entries}
use afs_cs.Config.Spec.{Handled}
use afs_cs.Config.Distinct.{IsDistinct, Handled-IsDistinct, length-le_of_IsDistinct}
use afs_cs.Config.Lifecycle.{config_init-Accounts}
use afs_cs.Config.Handler.{conf_option_handler-Handled}

-- The queue after the lines of a file, from the first to the last. Lines that are no pairs are
-- skipped.
pub data Read (E : Env) : List IniItem → List ErrinjConf → List ErrinjConf → Type 0 where
  finished : (q : List ErrinjConf) → Read E [] q q
  skipped :
      (n : ℕ) {lines : List IniItem} {q q' : List ErrinjConf}
      → Read E lines q q'
      → Read E (malformed n ∷ lines) q q'
  handled :
      (n : ℕ) {section key value : Str} {lines : List IniItem} {rc : ℤ} {q q' q'' : List ErrinjConf}
      → Handled E section key value q rc q'
      → Read E lines q' q''
      → Read E (pair n section key value ∷ lines) q q''

module _ (E : Env) {base : ℕ → ℕ} where
  ini_lines-Read :
      (lines : List IniItem) (error : ℕ) (q : List ErrinjConf) (s : State E)
      → Accounts base s.heap (held_entries q)
      → Ensures (λ (_, q') u. Read E lines q q') (ini_lines E lines error q s)
  unfolding ini_lines
  ini_lines-Read [] error q s acc = ensures (finished q)
  ini_lines-Read (malformed n ∷ lines) error q s acc =
      Ensures-mono (ini_lines-Read lines _ q s acc) λ _ u read. skipped n read
  ini_lines-Read (pair n section key value ∷ lines) error q s acc =
      Ensures-bind (conf_option_handler-Handled E q section key value s acc)
        λ (rc, q') t (acc', step, _).
          Ensures-mono (ini_lines-Read lines _ q' t acc') λ _ u read. handled n step read

module _ (E : Env) {base : ℕ → ℕ} where
  -- Let each block of the queue be allocated and held once, and the queue have at most one
  -- injection of each type. Whatever the section, the key and the value are, and whether or not
  -- there is memory, the handler returns a queue with at most one injection of each type.
  pub conf_option_handler-IsDistinct :
      (q : List ErrinjConf) (section key value : Str) (s : State E)
      → Accounts base s.heap (held_entries q)
      → IsDistinct q
      → Ensures (λ (_, q') u. IsDistinct q') (conf_option_handler E q section key value s)
  conf_option_handler-IsDistinct q section key value s acc distinct =
      Ensures-mono (conf_option_handler-Handled E q section key value s acc)
        λ (_, q') u (_, step, _). Handled-IsDistinct step distinct

module _ (E : Env) {base : ℕ → ℕ} where
  -- The heap with the queue's head.
  head-Accounts :
      (s : State E)
      → Accounts base s.heap (λ _. 0)
      → E.grant s.heap.next ≡ true
      → Accounts
          (λ a. base a + bit (s.heap.next == a))
          (record { live = update s.heap.live s.heap.next true; next = s.heap.next + 1 })
          (λ _. 0)
  unfolding malloc
  head-Accounts s acc granted =
      let grown : Heap = record {
        live = update s.heap.live s.heap.next true;
        next = s.heap.next + 1;
      } in
      let runs : malloc E s ≡ some (some s.heap.next, record s { heap = grown }) = rw granted in
      Accounts-move (Ensures-some (malloc-Accounts E s acc) runs).0 (λ a. omega arith)

  -- Let the heap be in order, the memory for the head of the queue be granted, and the file be
  -- there and open. Then `config_init` returns a queue, in that memory, whose injections come from
  -- an empty queue by the changes that the pairs of the file ask for, one after the other; the
  -- other lines change nothing. A pair of a known section misses its change, or stores NULL for a
  -- text, only where requests for memory are refused.
  pub config_init-Read :
      (conf_path : Str) (lines : List IniItem) (s : State E)
      → Accounts base s.heap (λ _. 0)
      → E.grant s.heap.next ≡ true
      → (E.call (sys_access conf_path 0) s.world).0.value ≡ pos 0
      → (E.ini_file conf_path (E.call (sys_access conf_path 0) s.world).1).0 ≡ some lines
      → Ensures
          (λ q u.
            (entries : List ErrinjConf) × (q
              ≡ some (record { block = s.heap.next; entries = entries }))
            × Read E lines [] entries)
          (config_init E conf_path s)
  unfolding config_init malloc init_queue load_config sys ini_parse ini_found
  config_init-Read conf_path lines s acc granted readable found =
      rw (granted, readable, found)
        (Ensures-bind {P = λ (rc, entries) u. (is_negative rc ≡ false) × Read E lines [] entries}
          (Ensures-bind
            (ini_lines-Read E {base = λ a. base a + bit (s.heap.next == a)} lines 0 [] _
              (head-Accounts s acc granted))
            λ _ u read. ensures (refl, read))
          λ (rc, entries) u (positive, read). rw positive (ensures (entries, refl, read)))

  -- If the heap is in order, a queue that `config_init` returns has at most four injections,
  -- whatever the file holds.
  pub config_init-length :
      (conf_path : Str) (s : State E)
      → Accounts base s.heap (λ _. 0)
      → Ensures
          (λ q u. (queue : ErrInjQ) → q ≡ some queue → length queue.entries ≤ 4)
          (config_init E conf_path s)
  config_init-length conf_path s acc =
      Ensures-mono (config_init-Accounts E conf_path s acc)
        λ q u (loaded, _) queue is. length-le_of_IsDistinct queue.entries (rw is at loaded).1
