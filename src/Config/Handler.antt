-- ===== src/Config/Handler.antt =====
-- `conf_option_handler` makes the change that its line asks for, and accounts for every block.
use afs_cs.Base.{
  ap, ◌∙◌, ℤ, Bool-cases, ◌-◌, ℕ, ◌+◌, ◌≡◌, refl, inl, inr, Option, none, some, List, [], ◌∷◌, ◌++◌,
  arith, ◌==◌, Str, str_eq,
}
use afs_cs.Base.Run.{Ensures, ensures, Ensures-bind, Ensures-mono, Ensures-and}
use afs_cs.Queue.{ErrinjType, ErrinjConf, zeroed}
use afs_cs.System.{Env, State}
use afs_cs.System.Accounts.{
  bit, Accounts, Accounts-move, held_str, HeapOnly, HeapOnly-refl, HeapOnly-trans, malloc-Accounts,
  held_new, free_str-Accounts, strdup-Accounts, IsRefused, malloc-IsRefused,
}
use afs_cs.Config.Spec.{
  Applied, path_regexp_set, op_regexp_set, probability_set, duration_set, unknown, Handled,
  unsupported, exhausted, updated, added,
}
use afs_cs.Config.Names.{
  section_name, section-cases, errinj_type_by_name-section_name, to_errinj_type-errinj_code,
  errinj_type_by_name-eq-minus_one,
}
use afs_cs.Config.{
  errinj_type_by_name, find_type, set_option, key_path_regexp, key_op_regexp, key_probability,
  key_duration, update_entry, add_entry, handle_found, handle_type, conf_option_handler,
}
use afs_cs.Config.Ownership.{
  held_conf, held_entries, held_entries-append, held_entries-put_type, held_conf-le-held_entries,
  put_type-append, type_eq_refl,
}

module _ (E : Env) where
  set_option-Accounts :
      {base : ℕ → ℕ} (key value : Str) (err : ErrinjConf) (s : State E)
      → Accounts base s.heap (held_conf err)
      → Ensures
          (λ (known, err') t.
            Accounts base t.heap (held_conf err')
            × Applied E key value err known err'
            × HeapOnly s t)
          (set_option E key value err s)
  unfolding set_option
  set_option-Accounts key value err s acc = elim (Bool-cases (str_eq key key_path_regexp)) [
    | inl is ↦ rw is (
        Ensures-bind
          (free_str-Accounts E s err.path_regexp
            {own' = λ a. bit (err.block == a) + held_str err.op_regexp a} acc (λ a. omega arith))
          λ _ t (acc₁, f₁). Ensures-bind (strdup-Accounts E t value acc₁) λ p u (acc₂, copy, f₂).
            ensures (
              Accounts-move acc₂ (λ a. omega arith),
              path_regexp_set is copy,
              HeapOnly-trans f₁ f₂,
            ))
    | inr no_path ↦ rw no_path (elim (Bool-cases (str_eq key key_op_regexp)) [
      | inl is ↦ rw is (
          Ensures-bind
            (free_str-Accounts E s err.op_regexp
              {own' = λ a. bit (err.block == a) + held_str err.path_regexp a} acc
              (λ a. omega arith))
            λ _ t (acc₁, f₁). Ensures-bind (strdup-Accounts E t value acc₁) λ p u (acc₂, copy, f₂).
              ensures (
                Accounts-move acc₂ (λ a. omega arith),
                op_regexp_set is copy,
                HeapOnly-trans f₁ f₂,
              ))
      | inr no_op ↦ rw no_op (elim (Bool-cases (str_eq key key_probability)) [
        | inl is ↦ rw is (ensures (acc, probability_set is, HeapOnly-refl s))
        | inr no_prob ↦ rw no_prob (elim (Bool-cases (str_eq key key_duration)) [
          | inl is ↦ rw is (ensures (acc, duration_set is, HeapOnly-refl s))
          | inr no_dur ↦
              rw no_dur (ensures (acc, unknown no_path no_op no_prob no_dur, HeapOnly-refl s))
        ])
      ])
    ])
  ]

-- The run of a handler, with its result, its queue and the memory.
abbrev Runs :
    (E : Env)
    → (ℕ → ℕ)
    → (ℤ → List ErrinjConf → Type 0)
    → State E
    → Option ((ℤ × List ErrinjConf) × State E)
    → Type 0
Runs E base P s o =
    Ensures (λ (rc, q') u. Accounts base u.heap (held_entries q') × P rc q' × HeapOnly s u) o

module _ (E : Env) {base : ℕ → ℕ} (section key value : Str) (t : ErrinjType) (q : List ErrinjConf)
    (name : section ≡ section_name t) where
  update_entry-found :
      (err : ErrinjConf) (s : State E)
      → find_type t q ≡ some err
      → Accounts base s.heap (held_entries q)
      → Runs E base (Handled E section key value q) s (update_entry E t key value err q s)
  unfolding update_entry
  update_entry-found err s found acc =
      Ensures-bind
        (set_option-Accounts E {base = λ a. base a + (held_entries q a - held_conf err a)} key value
          err s (Accounts-move acc λ a. omega (arith, held_conf-le-held_entries t q err a found)))
        λ (known, err') u (acc', applied, frame). ensures (
          Accounts-move acc' λ a. omega (
            arith,
            held_conf-le-held_entries t q err a found,
            held_entries-put_type t q err err' a found,
          ),
          updated t name found applied,
          frame,
        )

  update_entry-added :
      (b : ℕ) (s : State E)
      → find_type t q ≡ none
      → Accounts base s.heap (λ a. held_entries q a + bit (b == a))
      → Runs E base
          (Handled E section key value q)
          s
          (update_entry E t key value (zeroed b t) (q ++ zeroed b t ∷ []) s)
  unfolding update_entry
  update_entry-added b s missing acc =
      Ensures-bind
        (set_option-Accounts E {base = λ a. base a + held_entries q a} key value (zeroed b t) s
          (Accounts-move acc λ a. omega arith))
        λ (known, err') u (acc', applied, frame).
          rw (put_type-append t q (zeroed b t) err' missing (type_eq_refl t)) (
            ensures (
              Accounts-move acc' λ a. omega (arith, held_entries-append q (err' ∷ []) a),
              added t b name missing applied,
              frame,
            ))

  add_entry-Handled :
      (p : Option ℕ) (s : State E)
      → find_type t q ≡ none
      → (p ≡ none → IsRefused E)
      → Accounts base s.heap (held_new p (held_entries q))
      → Runs E base (Handled E section key value q) s (add_entry E t q key value p s)
  unfolding add_entry
  add_entry-Handled none s missing why acc =
      ensures (acc, exhausted t name missing (why refl), HeapOnly-refl s)
  add_entry-Handled (some b) s missing why acc = update_entry-added b s missing acc

  handle_found-Handled :
      (o : Option ErrinjConf) (s : State E)
      → find_type t q ≡ o
      → Accounts base s.heap (held_entries q)
      → Runs E base (Handled E section key value q) s (handle_found E t q key value o s)
  unfolding handle_found
  handle_found-Handled none s missing acc =
      Ensures-bind (Ensures-and (malloc-Accounts E s acc) (malloc-IsRefused E s))
        λ p u ((acc', frame), why).
          Ensures-mono (add_entry-Handled p u missing why acc')
            λ r v (acc'', handled, frame'). (acc'', handled, HeapOnly-trans frame frame')
  handle_found-Handled (some err) s found acc = update_entry-found err s found acc

module _ (E : Env) {base : ℕ → ℕ} where
  -- Let each block of the queue be allocated and held once. Whatever the section, the key and the
  -- value are, and whether or not there is memory, the handler returns: it makes the change of the
  -- queue that the line asks for, or, only where requests for memory are refused, stores NULL for a
  -- text or makes no change and returns -1; it makes no change and returns -1 for an unknown
  -- section. Each block of the new queue is allocated and held once, and nothing but the heap
  -- changes.
  pub conf_option_handler-Handled :
      (q : List ErrinjConf) (section key value : Str) (s : State E)
      → Accounts base s.heap (held_entries q)
      → Ensures
          (λ (rc, q') u.
            Accounts base u.heap (held_entries q')
            × Handled E section key value q rc q'
            × HeapOnly s u)
          (conf_option_handler E q section key value s)
  unfolding conf_option_handler handle_type
  conf_option_handler-Handled q section key value s acc = elim (section-cases section) [
    | inl (t, name) ↦
        rw
          (
            ap errinj_type_by_name name ∙ errinj_type_by_name-section_name t,
            to_errinj_type-errinj_code t,
          )
          (handle_found-Handled E section key value t q name (find_type t q) s refl acc)
    | inr other ↦
        rw (errinj_type_by_name-eq-minus_one section other)
          (ensures (acc, unsupported other, HeapOnly-refl s))
  ]
