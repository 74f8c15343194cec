-- ===== src/Assignments/Reads.antt =====
-- How a handler begins: it reads a row with its job, and throws unless it is the caller's. A
-- statement about the handler is one about the rest of it, under what was read.
use guardian_backend_service.Prelude.{
  ℕ, ◌≡◌, refl, Bool, true, false, Option, none, some, arith, ◌==◌, ◌===◌, not, ==→eq,
}
use guardian_backend_service.Prelude.Table.{find}
use guardian_backend_service.Prelude.Effect.{
  Result, ok, err, continue, ◌>>=◌, some_or_throw, throw_if, pure, assignment_not_found,
}
use guardian_backend_service.Prelude.Effect.Rules.{Run}
use guardian_backend_service.Data.{
  AssignmentStatus, assignment_eq, JobStatus, job_eq, Assignment, Job, Store, Action, join,
  find_assignment,
}
use guardian_backend_service.Assignments.Offers.{own_assignment}
use guardian_backend_service.Assignments.Replacement.{any_assignment}

pub same_status : (a b : AssignmentStatus) → not (a === b) ≡ false → a ≡ b
same_status a b h = ground arith

pub same_job_status : (a b : JobStatus) → not (a === b) ≡ false → a ≡ b
same_job_status a b h = ground arith

-- the row and its job, as they stand in the database
pub record Joined (id : ℕ) (s : Store) (a : Assignment) (j : Job) : Type 0 where
  pub row : find id s.assignments ≡ some a
  pub job : find a.job_id s.jobs ≡ some j

-- how a read ended: with an error, or with a row that satisfies `Found`
abbrev pub Read : (Assignment → Job → Type 0) → Store → Result (Assignment × Job) × Store → Type 0
Read Found s (ok (a, j), t) = (t ≡ s) × Found a j
Read Found s (err e, t) = (t ≡ s) × (e ≡ assignment_not_found)

join-Read :
    (id : ℕ) (s : Store)
    → Read
        (Joined id s)
        s
        (some_or_throw (join (find id s.assignments) s.jobs) assignment_not_found s)
unfolding some_or_throw
join-Read id s = by_row (find id s.assignments) refl
  where
    by_job :
        (a : Assignment) (p : Option Job)
        → find id s.assignments ≡ some a
        → find a.job_id s.jobs ≡ p
        → Read (Joined id s) s (
            some_or_throw
              (elim p as (λ x. Option (Assignment × Job)) [ none ↦ none | some j ↦ some (a, j) ])
              assignment_not_found
              s)
    by_job a none e q = (refl, refl)
    by_job a (some j) e q = (refl, record { row = e; job = q })

    by_row :
        (o : Option Assignment)
        → find id s.assignments ≡ o
        → Read (Joined id s) s (some_or_throw (join o s.jobs) assignment_not_found s)
    by_row none e = (refl, refl)
    by_row (some a) e = by_job a (find a.job_id s.jobs) e refl

pub any_assignment-Read : (id : ℕ) (s : Store) → Read (Joined id s) s (any_assignment id s)
unfolding any_assignment ◌>>=◌
any_assignment-Read id s = join-Read id s

-- the caller's own row
pub record Owned (id guardian : ℕ) (s : Store) (a : Assignment) (j : Job) : Type 0 where
  pub joined : Joined id s a j
  pub own : a.guardian_id ≡ guardian

pub own_assignment-Read :
    (id guardian : ℕ) (s : Store) → Read (Owned id guardian s) s (own_assignment id guardian s)
unfolding own_assignment ◌>>=◌
own_assignment-Read id guardian s =
    by_join (some_or_throw (join (find id s.assignments) s.jobs) assignment_not_found s)
      (join-Read id s)
  where
    by_owner :
        (a : Assignment) (j : Job) (b : Bool)
        → Joined id s a j
        → (a.guardian_id == guardian) ≡ b
        → Read
            (Owned id guardian s)
            s
            ((throw_if (not b) assignment_not_found >>= λ _. pure (a, j)) s)
    by_owner a j true joined e =
        (refl, record { joined = joined; own = ==→eq a.guardian_id guardian e })
    by_owner a j false joined e = (refl, refl)

    by_join :
        (r : Result (Assignment × Job) × Store)
        → Read (Joined id s) s r
        → Read (Owned id guardian s) s (
            continue
              (λ row. throw_if (not (row.0.guardian_id == guardian)) assignment_not_found >>= λ _.
                pure row)
              r)
    by_join (ok (a, j), t) (e, joined) = rw e (by_owner a j (a.guardian_id == guardian) joined refl)
    by_join (err x, t) (e, h) = (e, h)

module _ {B : Type 0} {P : Result B × Store → Type 0} where
  after_read :
      {Found : Assignment → Job → Type 0} (k : Assignment × Job → Action B) (s : Store)
      (r : Result (Assignment × Job) × Store)
      → Read Found s r
      → P (err assignment_not_found, s)
      → ((a : Assignment) (j : Job) → Found a j → Run P (k (a, j)) s)
      → P (continue k r)
  after_read k s (ok (a, j), t) (e, found) h g = rw e (g a j found).at
  after_read k s (err x, t) (e, why) h g = rw (e, why) h

  pub Run-own :
      (id guardian : ℕ) (k : Assignment × Job → Action B) (s : Store)
      → P (err assignment_not_found, s)
      → ((a : Assignment) (j : Job) → Owned id guardian s a j → Run P (k (a, j)) s)
      → Run P (own_assignment id guardian >>= k) s
  unfolding ◌>>=◌
  Run-own id guardian k s h g = record {
    at = after_read k s (own_assignment id guardian s) (own_assignment-Read id guardian s) h g;
  }

  pub Run-any :
      (id : ℕ) (k : Assignment × Job → Action B) (s : Store)
      → P (err assignment_not_found, s)
      → ((a : Assignment) (j : Job) → Joined id s a j → Run P (k (a, j)) s)
      → Run P (any_assignment id >>= k) s
  unfolding ◌>>=◌
  Run-any id k s h g = record {
    at = after_read k s (any_assignment id s) (any_assignment-Read id s) h g;
  }

  pub Run-find :
      (id : ℕ) (k : Option Assignment → Action B) (s : Store)
      → Run P (k (find id s.assignments)) s
      → Run P (find_assignment id >>= k) s
  unfolding ◌>>=◌ find_assignment
  Run-find id k s h = record { at = h.at }
