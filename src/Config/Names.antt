-- ===== src/Config/Names.antt =====
-- `errinj_type_by_name` finds the index of a name in `errinj_name`, and -1 for any other.
use mathlib.Core.Option.{some-injective}
use afs_cs.Base.{
  pos, minus_one, ◌≡◌, refl, sym, ap, ◌∙◌, ◌↔◌, ◌⊎◌, inl, inr, false, some, Str, codes, str_eq,
  eq_of_str_eq, Bool-cases,
}
use afs_cs.Queue.{
  ErrinjType, errinj_errno, errinj_kill_caller, errinj_noop, errinj_slowdown, errinj_code,
}
use afs_cs.Config.{errinj_type_by_name, to_errinj_type}

-- The name of the section of each type.
abbrev pub section_name : ErrinjType → Str
section_name errinj_errno = codes "errinj_errno"
section_name errinj_kill_caller = codes "errinj_kill_caller"
section_name errinj_noop = codes "errinj_noop"
section_name errinj_slowdown = codes "errinj_slowdown"

is_named :
    (t : ErrinjType) (name : Str) → (name ≡ section_name t) ⊎ (str_eq (section_name t) name ≡ false)
is_named t name = elim (Bool-cases (str_eq (section_name t) name)) [
  | inl same ↦ inl (sym (eq_of_str_eq (section_name t) name same))
  | inr other ↦ inr other
]

none_of :
    (name : Str)
    → str_eq (section_name errinj_errno) name ≡ false
    → str_eq (section_name errinj_kill_caller) name ≡ false
    → str_eq (section_name errinj_noop) name ≡ false
    → str_eq (section_name errinj_slowdown) name ≡ false
    → (t : ErrinjType) → str_eq (section_name t) name ≡ false
none_of name a b c d errinj_errno = a
none_of name a b c d errinj_kill_caller = b
none_of name a b c d errinj_noop = c
none_of name a b c d errinj_slowdown = d

-- A name is that of a type, or it is none of the four.
pub section-cases :
    (name : Str)
    → ((t : ErrinjType) × (name ≡ section_name t))
      ⊎ ((t : ErrinjType) → str_eq (section_name t) name ≡ false)
section-cases name = elim (is_named errinj_errno name) [
  | inl e ↦ inl (errinj_errno, e)
  | inr a ↦ elim (is_named errinj_kill_caller name) [
    | inl e ↦ inl (errinj_kill_caller, e)
    | inr b ↦ elim (is_named errinj_noop name) [
      | inl e ↦ inl (errinj_noop, e)
      | inr c ↦ elim (is_named errinj_slowdown name) [
        | inl e ↦ inl (errinj_slowdown, e)
        | inr d ↦ inr (none_of name a b c d)
      ]
    ]
  ]
]

pub errinj_type_by_name-section_name :
    (t : ErrinjType) → errinj_type_by_name (section_name t) ≡ pos (errinj_code t)
unfolding errinj_type_by_name str_eq
errinj_type_by_name-section_name errinj_errno = refl
errinj_type_by_name-section_name _ = refl

pub to_errinj_type-errinj_code : (t : ErrinjType) → to_errinj_type (pos (errinj_code t)) ≡ some t
unfolding to_errinj_type
to_errinj_type-errinj_code errinj_errno = refl
to_errinj_type-errinj_code _ = refl

pub to_errinj_type-section_name :
    (t : ErrinjType) → to_errinj_type (errinj_type_by_name (section_name t)) ≡ some t
to_errinj_type-section_name t = rw errinj_type_by_name-section_name (to_errinj_type-errinj_code t)

pub errinj_type_by_name-eq-minus_one :
    (name : Str)
    → ((t : ErrinjType) → str_eq (section_name t) name ≡ false)
    → errinj_type_by_name name ≡ minus_one
unfolding errinj_type_by_name
errinj_type_by_name-eq-minus_one name other =
    rw (other errinj_errno, other errinj_kill_caller, other errinj_noop, other errinj_slowdown)

-- The index that is found for the name of a section stands for a type exactly when the section has
-- the name of that type.
pub to_errinj_type_iff :
    (name : Str) (t : ErrinjType)
    → ((to_errinj_type (errinj_type_by_name name) ≡ some t) ↔ (name ≡ section_name t))
to_errinj_type_iff name t = (found, λ e. rw e (to_errinj_type-section_name t))
  where
    found : to_errinj_type (errinj_type_by_name name) ≡ some t → name ≡ section_name t
    found h = elim (section-cases name) [
      | inl (u, e) ↦
          e
          ∙ ap section_name (
              some-injective u t (
                sym (to_errinj_type-section_name u)
                ∙ ap (λ n. to_errinj_type (errinj_type_by_name n)) (sym e)
                ∙ h))
      | inr other ↦ unfold to_errinj_type in cc (errinj_type_by_name-eq-minus_one name other, h)
    ]
