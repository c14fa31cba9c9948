-- ===== src/Agenda/Display.antt =====
-- es3/agenda.cpp: what the agenda prints, and the threads that `run` starts.
use extremes.Base.{
  ℕ, ◌+◌, ◌-◌, ◌*◌, ◌/◌, ◌%◌, ◌^◌, List, [], ◌∷◌, ◌++◌, Option, none, some, Bytes, codes, ltb, ◌==◌,
  if◌then◌else◌, length, bytes_key,
}
use extremes.Base.Map.{Map, find}
use extremes.Common.{int_to_string}
use extremes.Agenda.{Agenda, TaskMap, ByClass, SizeMap, or_zero}
use extremes.Agenda.Tasks.{Task, TaskClass, unbound, cpu_bound, io_bound}

-- The workers of `run`: one for each task that may run at once.
abbrev pub thread_num : (TaskClass → ℕ) → ℕ
thread_num limits = limits unbound + limits cpu_bound + limits io_bound

abbrev pub unit_of : ℕ → ℕ × Bytes
unit_of val =
    if ltb val 10000
    then (1, codes "B")
    else if ltb val 2000000
    then (1024, codes "K")
    else (1024 * 1024, codes "M")

-- `agenda::format_si`: the hundredths are printed as a number, without a zero in front.
unfoldable pub format_si : ℕ → Bytes × Bytes
format_si val =
    let (denom, unit) = unit_of val in
    let whole = int_to_string (val / denom) in
    if val % denom == 0
    then (whole, unit)
    else (whole ++ codes "." ++ int_to_string ((val % denom) * 100 / denom), unit)

-- `val*1000/el` in 64 bits.
abbrev pub speed : ℕ → ℕ → ℕ
speed val el = (val * 1000) % 2 ^ 64 / el

abbrev pub amount : Bytes → ℕ → ℕ → Bytes
amount title val el =
    if val == 0
    then []
    else codes "  "
      ++ title
      ++ codes ": "
      ++ (format_si val).0
      ++ codes " "
      ++ (format_si val).1
      ++ codes ", speed: "
      ++ (format_si (if el == 0 then 0 else speed val el)).0
      ++ codes " "
      ++ (format_si (if el == 0 then 0 else speed val el)).1
      ++ codes "/sec"

abbrev pub stat : {J : Type 0} → Bytes → Agenda J → ℕ
stat name a = or_zero (find name a.stats)

-- `draw_progress_widget`, after `el` milliseconds.
unfoldable pub draw_progress_widget : {J : Type 0} → ℕ → Agenda J → Bytes
unfolding format_si find
draw_progress_widget el a =
    codes "Tasks: ["
    ++ int_to_string a.num_done
    ++ codes "/"
    ++ int_to_string a.num_submitted
    ++ codes "]"
    ++ (if a.num_failed == 0 then [] else codes " Failed tasks: " ++ int_to_string a.num_failed)
    ++ amount (codes "Downloaded") (stat (codes "downloaded") a) el
    ++ amount (codes "Uploaded") (stat (codes "uploaded") a) el
    ++ 13 ∷ []

-- `get_elapsed_millis`, of two times in seconds and nanoseconds.
unfoldable pub get_elapsed_millis : ℕ × ℕ → ℕ × ℕ → ℕ
get_elapsed_millis (start_sec, start_nsec) (sec, nsec) =
    let start_tm = (start_sec * 1000 + start_nsec / 1000000) % 2 ^ 64 in
    let cur_tm = (sec * 1000 + nsec / 1000000) % 2 ^ 64 in (cur_tm + 2 ^ 64 - start_tm) % 2 ^ 64

-- The lines of `draw_stats`; `none` is the division by an elapsed time of 0.
unfoldable pub stat_lines : ℕ → Map Bytes ℕ → Option Bytes
stat_lines el [] = some []
stat_lines el ((name, val) ∷ m) =
    let rest = stat_lines el m in
    let line =
      name
      ++ codes " [B]: "
      ++ int_to_string val
      ++ codes ", average [B/sec]: "
      ++ int_to_string (speed val el)
      ++ codes "\n" in
    if val == 0
    then rest
    else if el == 0
    then none
    else elim rest [ none ↦ none | some lines ↦ some (line ++ lines) ]

-- `draw_stats`
unfoldable pub draw_stats : {J : Type 0} → ℕ → Agenda J → Option Bytes
unfolding stat_lines
draw_stats el a = elim (stat_lines el a.stats) [
  | none ↦ none
  | some lines ↦ some (
      codes "time taken [sec]: "
      ++ int_to_string (el / 1000)
      ++ codes "."
      ++ int_to_string (el % 1000)
      ++ codes "\n"
      ++ lines)
]

module _ {J : Type 0} where
  -- The tasks in the order in which `print_queue` goes through them.
  abbrev pub in_map : TaskMap J → List (Task J)
  in_map [] = []
  in_map ((_, t) ∷ q) = t ∷ in_map q

  abbrev pub in_classes : ByClass J → List (Task J)
  in_classes [] = []
  in_classes ((_, q) ∷ m) = in_map q ++ in_classes m

  abbrev pub in_sizes : SizeMap J → List (Task J)
  in_sizes [] = []
  in_sizes ((_, by_class) ∷ m) = in_classes by_class ++ in_sizes m

  -- `tasks_count`: the number of the size groups.
  abbrev pub tasks_count : Agenda J → ℕ
  tasks_count a = length a.tasks

  abbrev pub task_lines : (Task J → Bytes) → List (Task J) → Bytes
  task_lines print_to [] = []
  task_lines print_to (t ∷ ts) = print_to t ++ codes "\n" ++ task_lines print_to ts

  -- `print_queue`
  unfoldable pub print_queue : (Task J → Bytes) → Agenda J → Bytes
  print_queue print_to a =
      codes "There are "
      ++ int_to_string (tasks_count a)
      ++ codes " task[s] present.\n"
      ++ task_lines print_to (in_sizes a.tasks)
