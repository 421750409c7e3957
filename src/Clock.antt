-- ===== src/Clock.antt =====
-- Timestamps of services/orchestrator/app.py (`_utc_now`, `_task_iso_now`, `_task_iso_after`).
-- A moment is a number of microseconds since the epoch. The tables store its ISO-8601 text, and
-- SQL compares the texts. Python leaves a zero fraction out, and `Z` stands behind `.` in ASCII,
-- so the text of a whole second stands behind all other texts of that second: `iso_rank` is the
-- place of a moment in the order of the texts.
use context_lattice.Prelude.{
  Bool, Option, Text, [], all_digits, arith, chop_last, codes, decimal_value, if◌then◌else◌,
  is_empty, leb, none, or_else, some, strip, true, ℕ, ◌%◌, ◌*◌, ◌++◌, ◌+◌, ◌<◌, ◌==◌, ◌≡◌, ◌≤◌,
}

abbrev pub micros : ℕ
micros = 1_000_000

unfoldable pub iso_rank : ℕ → ℕ
iso_rank t = if t % 1_000_000 == 0 then t + 1_000_000 else t

-- `a <= b` on two stored timestamps
unfoldable pub iso_leb : ℕ → ℕ → Bool
iso_leb a b = leb (iso_rank a) (iso_rank b)

-- The order of the texts is the order of the moments, but for less than one second.
pub iso_leb-early : (a b : ℕ) → iso_leb a b ≡ true → a < b + 1_000_000
unfolding iso_leb iso_rank
iso_leb-early a b h = ground arith

pub iso_leb-late : (a b : ℕ) → a + 1_000_000 ≤ b → iso_leb a b ≡ true
unfolding iso_leb iso_rank
iso_leb-late a b h = ground arith

pub iso_leb_refl : (a : ℕ) → iso_leb a a ≡ true
unfolding iso_leb
iso_leb_refl a = ground arith

pub iso_rank-injective : (a b : ℕ) → iso_rank a ≡ iso_rank b → a ≡ b
unfolding iso_rank
iso_rank-injective a b h = ground arith

-- `_task_parse_datetime`. `from_iso` stands for `datetime.fromisoformat` with the conversion to UTC:
-- the moment, or `none` where Python raises `ValueError`.
unfoldable pub task_parse_datetime : (Text → Option ℕ) → Option Text → Option ℕ
task_parse_datetime from_iso value =
    let raw = strip (or_else value []) in
    if is_empty raw
    then none
    else if all_digits raw
    then some (decimal_value 0 raw * micros)
    else elim (chop_last b'Z' raw) [
      | none ↦ from_iso raw
      | some front ↦ from_iso (front ++ codes "+00:00")
    ]
