-- ===== src/Assignments/Advance.antt =====
-- How a request may change an assignment: its status moves along the table of allowed transitions,
-- and every change of the status raises the version number.
use guardian_backend_service.Prelude.{
  ℕ, ◌+◌, ◌≤◌, ◌<◌, ◌≡◌, ◌⊎◌, inl, inr, refl, Bool, true, Option, none, some, includes, arith,
  Bool-cases, ◌==◌, if◌then◌else◌, sym, ==→eq,
}
use guardian_backend_service.Prelude.Table.{Table, find, modify, modify_where}
use guardian_backend_service.Prelude.Table.Laws.{find-modify, find-modify_where, map_option}
use guardian_backend_service.Data.{AssignmentStatus, assignment_eq, Assignment, Store}
use guardian_backend_service.Assignments.Transitions.{allowed_transitions}

-- the table allows the step
abbrev pub Allowed : AssignmentStatus → AssignmentStatus → Type 0
Allowed from to = includes (allowed_transitions from) to ≡ true

-- a path of allowed steps
pub data Leads (from : AssignmentStatus) : AssignmentStatus → Type 0 where
  here : Leads from from
  step : {mid to : AssignmentStatus} → Leads from mid → Allowed mid to → Leads from to

pub Leads-trans : {a b c : AssignmentStatus} → Leads a b → Leads b c → Leads a c
Leads-trans p here = p
Leads-trans p (step q e) = step (Leads-trans p q) e

pub record Advances (a b : Assignment) : Type 0 where
  pub path : Leads a.status b.status
  pub version_grows : a.version_number ≤ b.version_number
  pub change_is_versioned : (a.status ≡ b.status) ⊎ (a.version_number < b.version_number)

pub Advances-refl : (a : Assignment) → Advances a a
Advances-refl a = record {
  path = here;
  version_grows = omega arith;
  change_is_versioned = inl refl;
}

pub Advances-trans : (a b c : Assignment) → Advances a b → Advances b c → Advances a c
Advances-trans a b c h k = record {
  path = Leads-trans h.path k.path;
  version_grows = omega arith;
  change_is_versioned = versioned h.change_is_versioned k.change_is_versioned;
}
  where
    versioned :
        (a.status ≡ b.status) ⊎ (a.version_number < b.version_number)
        → (b.status ≡ c.status) ⊎ (b.version_number < c.version_number)
        → (a.status ≡ c.status) ⊎ (a.version_number < c.version_number)
    versioned p q = ground (arith, h.version_grows, k.version_grows)

-- a row before and after: no row is deleted, and none is made
abbrev pub RowFollows : Option Assignment → Option Assignment → Type 0
RowFollows none none = Unit {0}
RowFollows (some a) (some b) = Advances a b
RowFollows _ _ = ⊥

abbrev pub TableFollows : Table Assignment → Table Assignment → Type 0
TableFollows t u = (k : ℕ) → RowFollows (find k t) (find k u)

abbrev pub Follows : Store → Store → Type 0
Follows s t = TableFollows s.assignments t.assignments

pub RowFollows-refl : (o : Option Assignment) → RowFollows o o
RowFollows-refl none = tt
RowFollows-refl (some a) = Advances-refl a

pub RowFollows-trans :
    (o p q : Option Assignment) → RowFollows o p → RowFollows p q → RowFollows o q
RowFollows-trans none none none h k = tt
RowFollows-trans none none (some c) h k = k
RowFollows-trans none (some b) q h k = absurd h
RowFollows-trans (some a) none q h k = absurd h
RowFollows-trans (some a) (some b) none h k = k
RowFollows-trans (some a) (some b) (some c) h k = Advances-trans a b c h k

pub Follows-refl : (s : Store) → Follows s s
Follows-refl s k = RowFollows-refl (find k s.assignments)

pub Follows-trans : (s t u : Store) → Follows s t → Follows t u → Follows s u
Follows-trans s t u h k i = RowFollows-trans _ _ _ (h i) (k i)

-- A store with the same assignments follows.
pub Follows-same : (s t : Store) → t.assignments ≡ s.assignments → Follows s t
Follows-same s t e k = rw e (RowFollows-refl (find k s.assignments))

-- a write to one row that advances it
pub modify-TableFollows :
    (id : ℕ) (f : Assignment → Assignment) (t : Table Assignment) (a : Assignment)
    → find id t ≡ some a
    → Advances a (f a)
    → TableFollows t (modify id f t)
modify-TableFollows id f t a e h k = elim (Bool-cases (id == k)) [
  | inl same ↦
      let found : find k t ≡ some a = rw (==→eq id k same) at e in
      rw (find-modify k id f t, same, found) h
  | inr differ ↦ rw (find-modify k id f t, differ) (RowFollows-refl (find k t))
]

-- a write to all the rows that meet a test
pub modify_where-TableFollows :
    (p : Assignment → Bool) (f : Assignment → Assignment) (t : Table Assignment)
    → ((a : Assignment) → p a ≡ true → Advances a (f a))
    → TableFollows t (modify_where p f t)
modify_where-TableFollows p f t h k = rw (find-modify_where k p f t) (row (find k t))
  where
    pick : (a : Assignment) → Advances a (if p a then f a else a)
    pick a = elim (Bool-cases (p a)) [
      | inl yes_p ↦ rw yes_p (h a yes_p)
      | inr no_p ↦ rw no_p (Advances-refl a)
    ]

    row : (o : Option Assignment) → RowFollows o (map_option (λ r. if p r then f r else r) o)
    row none = tt
    row (some a) = pick a

-- a write that keeps the status and the version
pub keep-Advances :
    (a b : Assignment) → a.status ≡ b.status → a.version_number ≡ b.version_number → Advances a b
keep-Advances a b e v = record {
  path = rw (sym e) here;
  version_grows = omega arith;
  change_is_versioned = inl e;
}

-- a step of the table that bumps the version
pub step-Advances :
    (a b : Assignment)
    → Allowed a.status b.status
    → b.version_number ≡ a.version_number + 1
    → Advances a b
step-Advances a b e v = record {
  path = step here e;
  version_grows = omega arith;
  change_is_versioned = inr (omega arith);
}
