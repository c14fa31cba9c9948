-- ===== src/Options.antt =====
-- es3/main.cpp: the subcommands, the limits on the tuning options, and the exit codes of `main`.
pub mod Limits
use extremes.Base.{
  ℕ, zero, suc, ◌+◌, ◌*◌, Bool, true, false, List, [], ◌∷◌, Option, none, some, Bytes, codes, ltb,
  leb, if◌then◌else◌, bytes_key, ◌=k◌, map,
}
use extremes.Errors.{es3_exception, std_exception, unknown_exception}
use extremes.Connection.Requests.{Outcome, done, failed, crashed}

-- An `int`, which an option can set below 0.
pub data ℤ : Type 0 where
  pos negsuc : ℕ → ℤ

abbrev pub max_in_flight : ℕ
max_in_flight = 200

abbrev pub min_segment_size : ℕ
min_segment_size = 6 * 1024 * 1024

-- `if(n<=0) n=fallback`
abbrev pub or_default : ℕ → ℤ → ℕ
or_default fallback (pos zero) = fallback
or_default fallback (pos (suc n)) = suc n
or_default fallback (negsuc n) = fallback

abbrev pub clamp_segments : ℤ → ℕ
clamp_segments (pos zero) = 40
clamp_segments (pos (suc n)) = if ltb max_in_flight (suc n) then max_in_flight else suc n
clamp_segments (negsuc n) = 40

abbrev pub clamp_segment_size : ℤ → ℕ
clamp_segment_size (pos n) = if ltb n min_segment_size then min_segment_size else n
clamp_segment_size (negsuc n) = min_segment_size

-- The tuning options as they are given.
pub record Tuning : Type 0 where
  pub thread_num : ℤ
  pub io_threads : ℤ
  pub cpu_threads : ℤ
  pub segment_size : ℤ
  pub segments : ℤ

-- The arguments of the agenda.
pub record AgendaArgs : Type 0 where
  pub num_unbound : ℕ
  pub num_cpu_bound : ℕ
  pub num_io_bound : ℕ
  pub segment_size : ℕ
  pub max_segments : ℕ

-- What `main` makes of the options, for a machine with this number of processors.
unfoldable pub tune : ℕ → Tuning → AgendaArgs
tune processors t = record {
  num_unbound = or_default (processors * 6 + 40) t.thread_num;
  num_cpu_bound = or_default (processors + 2) t.cpu_threads;
  num_io_bound = or_default (processors * 2 + 2) t.io_threads;
  segment_size = clamp_segment_size t.segment_size;
  max_segments = clamp_segments t.segments;
}

-- `std::find` on the names of the subcommands.
abbrev pub is_among : Bytes → List Bytes → Bool
is_among s [] = false
is_among s (t ∷ ts) = if t =k s then true else is_among s ts

-- An option that `subcommands_parser` hands on: its key and its value.
abbrev pub ParsedOption : Type 0
ParsedOption = Bytes × Bytes

-- `subcommands_parser`: the options that it found, and what is left of the arguments.
unfoldable pub subcommands_parser : List Bytes → List Bytes → List ParsedOption × List Bytes
subcommands_parser [] subcommands = ([], [])
subcommands_parser (first ∷ args) subcommands =
    if is_among first subcommands
    then ((codes "subcommand", first) ∷ map (λ s. (codes "subcommand_params", s)) args, [])
    else ([], first ∷ args)

-- Which file the configuration is read from: the option, else the variable, else the file in the home
-- directory if there is one.
unfoldable pub config_file :
    Option Bytes → Option Bytes → Option Bytes → (Bytes → Bool) → Option Bytes
config_file (some given) variable home exists = some given
config_file none (some variable) home exists = some variable
config_file none none none exists = none
config_file none none (some cfg) exists = if exists cfg then some cfg else none

-- The end of `main`: the two handlers give 8, and any other exception ends the program.
abbrev pub main_code : Outcome ℕ → Option ℕ
main_code (done code) = some code
main_code (failed tainted (es3_exception r)) = some 8
main_code (failed tainted std_exception) = some 8
main_code (failed tainted unknown_exception) = none
main_code crashed = none
