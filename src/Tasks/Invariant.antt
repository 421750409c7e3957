-- ===== src/Tasks/Invariant.antt =====
-- What holds of every row of `tasks`, and of the table: ids are distinct (the primary key).
use mathlib.Core.Option
use mathlib.Core.Path.{subst}
use context_lattice.Prelude.{
  All, All-Has, All-set_row, All-update_where, Distinct, Has, List, Text, [], arith, false, find,
  find-Has, find-pass, find-set_row, find-set_row_ne, has_key, if◌then◌else◌, is_some,
  keys-update_where, refl, some, sym, text_eq, text_eq_iff, text_eq_refl, text_eq_sound, true,
  update_where, ◌++◌, ◌∷◌, ◌≡◌, ◌≤◌,
}
use context_lattice.Tasks.{
  Event, Task, TaskDb, find_task, has_id, ids, is_running, is_terminal, log_event, set_task,
}

pub record IsValidTask (t : Task) : Type 0 where
  pub within : t.attempts ≤ t.max_attempts
  pub positive : 1 ≤ t.max_attempts
  pub capped : t.max_attempts ≤ 50
  pub unclaimed : is_running t.status ≡ false → is_some t.claimed_by ≡ false
  pub unleased : is_running t.status ≡ false → is_some t.lease_expires_at ≡ false
  pub completed : is_terminal t.status ≡ true → is_some t.completed_at ≡ true

pub record IsValid (db : TaskDb) : Type 0 where
  pub rows : All IsValidTask db.tasks
  pub keys : Distinct text_eq (ids db.tasks)

-- The ids alone.
abbrev pub IsKeyed : TaskDb → Type 0
IsKeyed db = Distinct text_eq (ids db.tasks)

abbrev pub KeepsId : (Task → Task) → Type 0
KeepsId f = (t : Task) → (f t).id ≡ t.id

pub set_task-IsKeyed :
    (i : Text) (f : Task → Task) (db : TaskDb) → KeepsId f → IsKeyed db → IsKeyed (set_task i f db)
unfolding set_task
set_task-IsKeyed i f db same v =
    subst (Distinct text_eq) (sym (keys-update_where _ text_eq (has_id i) f db.tasks same)) v

pub set_task-IsValid :
    (i : Text) (f : Task → Task) (db : TaskDb)
    → KeepsId f
    → ((t : Task) → IsValidTask t → IsValidTask (f t))
    → IsValid db
    → IsValid (set_task i f db)
unfolding set_task
set_task-IsValid i f db same keep v = record {
  rows = All-update_where (has_id i) IsValidTask f db.tasks (λ t _ h. keep t h) v.rows;
  keys =
      subst (Distinct text_eq) (sym (keys-update_where _ text_eq (has_id i) f db.tasks same))
        v.keys;
}

-- The same where only the row that was read before is known to be fit for the update.
pub set_row-IsValid :
    (i : Text) (f : Task → Task) (db : TaskDb) (t : Task)
    → find_task i db ≡ some t
    → KeepsId f
    → (IsValidTask t → IsValidTask (f t))
    → IsValid db
    → IsValid (set_task i f db)
unfolding set_task find_task
set_row-IsValid i f db t e same keep v = record {
  rows =
      All-set_row (λ r. r.id) text_eq text_eq_sound IsValidTask i f db.tasks t e v.keys v.rows
        (keep (All-Has IsValidTask t db.tasks v.rows (find-pass (has_id i) t db.tasks e).1));
  keys =
      subst (Distinct text_eq) (sym (keys-update_where _ text_eq (has_id i) f db.tasks same))
        v.keys;
}

pub find_task-IsValid :
    (i : Text) (db : TaskDb) (t : Task) → find_task i db ≡ some t → IsValid db → IsValidTask t
unfolding find_task
find_task-IsValid i db t e v =
    All-Has IsValidTask t db.tasks v.rows (find-pass (has_id i) t db.tasks e).1

pub find_task-id : (i : Text) (db : TaskDb) (t : Task) → find_task i db ≡ some t → t.id ≡ i
unfolding find_task has_key
find_task-id i db t e = text_eq_sound t.id i (find-pass (has_id i) t db.tasks e).0

pub find_task-Has_keyed :
    (t : Task) (db : TaskDb) → IsKeyed db → Has t db.tasks → find_task t.id db ≡ some t
unfolding find_task
find_task-Has_keyed t db v h =
    find-Has (λ r. r.id) text_eq text_eq_sound text_eq_refl t db.tasks v h

pub find_task-Has :
    (t : Task) (db : TaskDb) → IsValid db → Has t db.tasks → find_task t.id db ≡ some t
find_task-Has t db v h = find_task-Has_keyed t db v.keys h

pub log_event-IsValid : (e : Event) (db : TaskDb) → IsValid db → IsValid (log_event e db)
unfolding log_event
log_event-IsValid e db v = record { rows = v.rows; keys = v.keys }

pub find_task-log_event :
    (i : Text) (e : Event) (db : TaskDb) → find_task i (log_event e db) ≡ find_task i db
unfolding find_task log_event
find_task-log_event i e db = refl

-- What is read by id after an update of the row that was read.
pub find_task-set_task :
    (i : Text) (f : Task → Task) (db : TaskDb) (t : Task)
    → find_task i db ≡ some t
    → KeepsId f
    → find_task i (set_task i f db) ≡ some (f t)
unfolding find_task set_task
find_task-set_task i f db t e same = find-set_row (λ r. r.id) text_eq i f db.tasks t same e

-- All other rows read as before.
pub find_task-set_task_ne :
    (i j : Text) (f : Task → Task) (db : TaskDb)
    → KeepsId f
    → text_eq i j ≡ false
    → find_task j (set_task i f db) ≡ find_task j db
unfolding find_task set_task
find_task-set_task_ne i j f db same ne =
    find-set_row_ne (λ r. r.id) text_eq i j f db.tasks same (λ y h. rw (text_eq_sound y i h) ne)

-- What any id reads after an update by id.
pub find_task-set_task_if :
    (i j : Text) (f : Task → Task) (db : TaskDb)
    → KeepsId f
    → find_task j (set_task i f db)
      ≡ Option.map (λ t. if text_eq i j then f t else t) (find_task j db)
unfolding find_task set_task find update_where has_key
find_task-set_task_if i j f db same = go db.tasks
  where
    go :
        (ts : List Task)
        → find (has_id j) (update_where (has_id i) f ts)
          ≡ Option.map (λ t. if text_eq i j then f t else t) (find (has_id j) ts)
    go [] = refl
    go (t ∷ ts) =
        ground (arith, same t, go ts, text_eq_iff t.id i, text_eq_iff t.id j, text_eq_iff i j)

pub find_task-found : (i : Text) (t : Task) (db : TaskDb) → find_task i db ≡ some t → Has t db.tasks
unfolding find_task
find_task-found i t db e = (find-pass (has_id i) t db.tasks e).1

-- A row is read as before after rows are appended.
pub find_task-append :
    (i : Text) (us : List Task) (db : TaskDb) (t : Task)
    → find_task i db ≡ some t
    → find_task i (record db { tasks = db.tasks ++ us }) ≡ some t
unfolding find_task find
find_task-append i us db t e = go db.tasks e
  where
    go : (ts : List Task) → find (has_id i) ts ≡ some t → find (has_id i) (ts ++ us) ≡ some t
    go [] h = cc
    go (u ∷ ts) h = ground (arith, go ts)
