-- ===== src/Config/Lifecycle.antt =====
-- The memory of `config_init` and `config_delete`.
use afs_cs.Base.{
  ◌⊎◌, ap, ℕ, ◌+◌, pos, ◌≡◌, refl, inl, inr, Bool, true, false, Option, none, some, List, [], ◌∷◌,
  arith, ◌==◌, ◌==ℤ◌, if◌then◌else◌, Str, is_negative,
}
use afs_cs.Base.Run.{Ensures, ensures, Ensures-bind, Ensures-mono, Ensures-if}
use afs_cs.Queue.{ErrinjConf, ErrInjQ}
use afs_cs.System.{Env, Heap, State, IniItem, pair, malformed}
use afs_cs.System.Kernel.{sys_access}
use afs_cs.System.Memory.{sys}
use afs_cs.System.Accounts.{
  bit, Accounts, Accounts-move, held_str, HeapOnly, HeapOnly-refl, HeapOnly-trans, KeepsConf,
  malloc-Accounts, held_new, free-Accounts, free_str-Accounts,
}
use afs_cs.Config.{
  ini_lines, ini_parse, ini_found, init_queue, load_config, config_init, delete_entries,
  config_delete,
}
use afs_cs.Config.Ownership.{held_entries, held_queue}
use afs_cs.Config.Handler.{conf_option_handler-Handled}
use afs_cs.Config.Distinct.{IsDistinct, Handled-IsDistinct}

-- What a loaded configuration holds. Without one, no block is held, or the queue's head is
-- allocated and lost.
abbrev pub Loaded : (ℕ → ℕ) → Option ErrInjQ → Heap → Type 0
Loaded base none h = Accounts base h (λ _. 0) ⊎ ((b : ℕ) × Accounts base h (λ a. bit (b == a)))
Loaded base (some q) h = Accounts base h (held_queue (some q)) × IsDistinct q.entries

Loaded-if :
    (base : ℕ → ℕ) (b : Bool) (head : ℕ) (q : List ErrinjConf) (h : Heap)
    → Accounts (λ a. base a + bit (head == a)) h (held_entries q)
    → IsDistinct q
    → (b ≡ true → q ≡ [])
    → Loaded base (if b then none else some (record { block = head; entries = q })) h
Loaded-if base true head q h acc d empty =
    inr (head, Accounts-move acc (λ a. omega (arith, ap (λ x. held_entries x a) (empty refl))))
Loaded-if base false head q h acc d empty = (Accounts-move acc (λ a. omega arith), d)

KeepsConf-heap : {E : Env} {s t u : State E} → KeepsConf s t → HeapOnly t u → KeepsConf s u
KeepsConf-heap k f = record { conf = cc (k.conf, f.conf); rng = cc (k.rng, f.rng) }

module _ (E : Env) {base : ℕ → ℕ} where
  delete_entries-Accounts :
      (q : List ErrinjConf) (s : State E) {own : ℕ → ℕ}
      → Accounts base s.heap (λ a. own a + held_entries q a)
      → Ensures (λ _ t. Accounts base t.heap own × HeapOnly s t) (delete_entries E q s)
  unfolding delete_entries
  delete_entries-Accounts [] s acc = ensures (Accounts-move acc (λ a. omega arith), HeapOnly-refl s)
  delete_entries-Accounts (err ∷ q) s {own} acc =
      Ensures-bind
        (free_str-Accounts E s err.path_regexp
          {own' = λ a. own a + held_entries q a + bit (err.block == a) + held_str err.op_regexp a}
          acc (λ a. omega arith))
        λ _ t (acc₁, f₁).
          Ensures-bind
            (free_str-Accounts E t err.op_regexp
              {own' = λ a. own a + held_entries q a + bit (err.block == a)} acc₁ (λ a. omega arith))
            λ _ u (acc₂, f₂).
              Ensures-bind (free-Accounts E u err.block acc₂ (λ a. omega arith)) λ _ v (acc₃, f₃).
                Ensures-mono (delete_entries-Accounts q v acc₃) λ _ w (acc₄, f₄).
                  (acc₄, HeapOnly-trans f₁ (HeapOnly-trans f₂ (HeapOnly-trans f₃ f₄)))

  ini_lines-Accounts :
      (lines : List IniItem) (error : ℕ) (q : List ErrinjConf) (s : State E)
      → Accounts base s.heap (held_entries q)
      → IsDistinct q
      → Ensures
          (λ (_, q') u. Accounts base u.heap (held_entries q') × IsDistinct q' × HeapOnly s u)
          (ini_lines E lines error q s)
  unfolding ini_lines
  ini_lines-Accounts [] error q s acc d = ensures (acc, d, HeapOnly-refl s)
  ini_lines-Accounts (malformed n ∷ lines) error q s acc d = ini_lines-Accounts lines _ q s acc d
  ini_lines-Accounts (pair n section key value ∷ lines) error q s acc d =
      Ensures-bind (conf_option_handler-Handled E q section key value s acc)
        λ (rc, q') u (acc', handled, frame).
          Ensures-mono (ini_lines-Accounts lines _ q' u acc' (Handled-IsDistinct handled d))
            λ r v (acc'', d'', frame'). (acc'', d'', HeapOnly-trans frame frame')

  ini_found-Accounts :
      (found : Option (List IniItem)) (s : State E)
      → Accounts base s.heap (λ _. 0)
      → Ensures
          (λ (rc, q) u.
            Accounts base u.heap (held_entries q)
            × IsDistinct q
            × HeapOnly s u
            × (is_negative rc ≡ true → q ≡ []))
          (ini_found E found [] s)
  unfolding ini_found
  ini_found-Accounts none s acc = ensures (acc, λ t. omega arith, HeapOnly-refl s, λ _. refl)
  ini_found-Accounts (some lines) s acc =
      Ensures-bind (ini_lines-Accounts lines 0 [] s acc (λ t. omega arith))
        λ (error, q) u (acc', d, frame). ensures (acc', d, frame, λ h. cc)

module _ (E : Env) {base : ℕ → ℕ} where
  load_config-Accounts :
      (conf_path : Str) (head : ℕ) (s : State E)
      → Accounts base s.heap (λ a. bit (head == a))
      → Ensures (λ q u. Loaded base q u.heap × KeepsConf s u) (load_config E conf_path head s)
  unfolding load_config ini_parse sys
  load_config-Accounts conf_path head s acc =
      Ensures-if {P = λ q u. Loaded base q u.heap × KeepsConf s u}
        ((E.call (sys_access conf_path 0) s.world).0.value ==ℤ pos 0) _ _ _
        (Ensures-bind
          (ini_found-Accounts E {base = λ a. base a + bit (head == a)} _ _
            (Accounts-move acc (λ a. omega arith)))
          λ (rc, q) u (acc', d, frame, empty). ensures (
            Loaded-if base (is_negative rc) head q u.heap acc' d empty,
            KeepsConf-heap (record { conf = refl; rng = refl }) frame,
          ))
        (ensures {a = some (record { block = head; entries = [] })} (
          (Accounts-move acc (λ a. omega arith), λ t. omega arith),
          record { conf = refl; rng = refl },
        ))

  -- `config_init` returns, whatever the file holds. Where it returns a queue, each of its blocks is
  -- allocated and held once, no other block was left behind, and there is at most one injection of
  -- each type. Where it returns NULL, no block was left behind, or one, which is lost.
  -- Configuration and random numbers are as they were.
  pub config_init-Accounts :
      (conf_path : Str) (s : State E)
      → Accounts base s.heap (λ _. 0)
      → Ensures (λ q u. Loaded base q u.heap × KeepsConf s u) (config_init E conf_path s)
  unfolding config_init
  config_init-Accounts conf_path s acc =
      Ensures-bind (malloc-Accounts E s acc) λ p u (acc', frame). init_queue-Accounts p u acc' frame
    where
      init_queue-Accounts :
          (p : Option ℕ) (u : State E)
          → Accounts base u.heap (held_new p (λ _. 0))
          → HeapOnly s u
          → Ensures (λ q v. Loaded base q v.heap × KeepsConf s v) (init_queue E conf_path p u)
      init_queue-Accounts none u acc' frame =
          unfold init_queue in
          ensures (inl acc', KeepsConf-heap (record { conf = refl; rng = refl }) frame)
      init_queue-Accounts (some b) u acc' frame =
          unfold init_queue in
          Ensures-mono (load_config-Accounts conf_path b u (Accounts-move acc' (λ a. omega arith)))
            λ q v (loaded, k).
              (loaded, record { conf = cc (k.conf, frame.conf); rng = cc (k.rng, frame.rng) })

  -- If each block of a configuration is allocated and held once, `config_delete` returns; it freed
  -- all of these blocks and no other, and changed nothing but the heap.
  pub config_delete-Accounts :
      (errors : Option ErrInjQ) (s : State E)
      → Accounts base s.heap (held_queue errors)
      → Ensures (λ _ t. Accounts base t.heap (λ _. 0) × HeapOnly s t) (config_delete E errors s)
  unfolding config_delete
  config_delete-Accounts none s acc = ensures (acc, HeapOnly-refl s)
  config_delete-Accounts (some q) s acc =
      Ensures-bind
        (delete_entries-Accounts E q.entries s {own = λ a. bit (q.block == a)}
          (Accounts-move acc (λ a. omega arith)))
        λ _ t (acc', frame).
          Ensures-mono (free-Accounts E t q.block acc' (λ a. omega arith))
            λ _ u (acc'', frame'). (acc'', HeapOnly-trans frame frame')
