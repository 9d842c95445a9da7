-- ===== src/Logging/Severity.antt =====
-- Which messages a logger lets through.
use small_rpc.Prelude.{
  ℕ, Bool, Bool-cases, inl, inr, true, false, ◌==◌, ◌≡◌, ◌≢◌, refl, subst, List, [], ◌∷◌, Bytes,
  Option, none, some, ℤ, pos, ltb_ℤ, Run, returns, fault, out_of_fuel, ◌>>=◌, >>=-eq-returns,
}
use small_rpc.Logging.{
  Appender, to_stdout, to_file, Logger, Stat, Answers, Appending, Origin, new_logger, set_severity,
  set_appender, with_file, init_log, logger_append, append_to, append, record_line, log, log_if,
}
use small_rpc.TimeStamp.{TimeStamp}

-- What a program does with the logger.
pub data Use : Type 0 where
  severity_set : ℤ → Use
  appender_set : Option Appender → Use
  log_started : Bytes → ℤ → ℤ → TimeStamp → ℕ → Option ℕ → Stat → Use
  logged : Bool → ℕ → Origin → Answers → Bytes → Use

unfoldable pub use_logger : (TimeStamp → Bytes) → Use → Logger → Run Logger
use_logger str (severity_set severity) l = returns (set_severity severity l).1
use_logger str (appender_set a) l = returns (set_appender a l).1
use_logger str (log_started logfile severity rollover_min now left_over f st) l =
    returns (init_log logfile severity rollover_min now left_over f st l).1
use_logger str (logged test severity origin o message) l =
    log_if test str severity origin o message l

abbrev pub use_all : (TimeStamp → Bytes) → List Use → Logger → Run Logger
use_all str [] l = returns l
use_all str (u ∷ us) l = use_logger str u l >>= use_all str us

-- The severity is one of the four.
abbrev pub IsGraded : Logger → Type 0
IsGraded l = (ltb_ℤ l.severity (pos 0) ≡ false) × (ltb_ℤ (pos 3) l.severity ≡ false)

abbrev IsGradedRun : Run Logger → Type 0
IsGradedRun (returns l) = IsGraded l
IsGradedRun fault = Unit
IsGradedRun out_of_fuel = Unit

IsGradedRun->>= {ℓ} :
    {A : Type ℓ} (m : Run A) (f : A → Run Logger)
    → ((a : A) → IsGradedRun (f a))
    → IsGradedRun (m >>= f)
IsGradedRun->>= (returns a) f next = next a
IsGradedRun->>= fault f next = tt
IsGradedRun->>= out_of_fuel f next = tt

IsGradedRun-then :
    (m : Run Logger) (f : Logger → Run Logger)
    → IsGradedRun m
    → ((l : Logger) → IsGraded l → IsGradedRun (f l))
    → IsGradedRun (m >>= f)
IsGradedRun-then (returns l) f graded next = next l graded
IsGradedRun-then fault f graded next = tt
IsGradedRun-then out_of_fuel f graded next = tt

set_severity-IsGraded :
    (severity : ℤ) (l : Logger) → IsGraded l → IsGraded (set_severity severity l).1
unfolding set_severity
set_severity-IsGraded severity l graded = elim (Bool-cases (ltb_ℤ severity (pos 0))) [
  | inl low ↦ rw low graded
  | inr high ↦ rw high (elim (Bool-cases (ltb_ℤ (pos 3) severity)) [
    | inl above ↦ rw above graded
    | inr below ↦ rw below (high, below)
  ])
]

set_appender-IsGraded :
    (a : Option Appender) (l : Logger) → IsGraded l → IsGraded (set_appender a l).1
unfolding set_appender
set_appender-IsGraded none l graded = graded
set_appender-IsGraded (some a) l graded = graded

with_file-IsGraded :
    (made : Bool) (s : Appending) (l : Logger) → IsGraded l → IsGraded (with_file (made, s) l).1
unfolding with_file
with_file-IsGraded true s l graded = set_appender-IsGraded (some (to_file s)) l graded
with_file-IsGraded false s l graded = graded

init_log-IsGraded :
    (logfile : Bytes) (severity rollover_min : ℤ) (now : TimeStamp) (left_over : ℕ) (f : Option ℕ)
    (st : Stat) (l : Logger)
    → IsGraded l
    → IsGraded (init_log logfile severity rollover_min now left_over f st l).1
unfolding init_log
init_log-IsGraded logfile severity rollover_min now left_over f st l graded =
    let graded' = set_severity-IsGraded severity l graded in
    elim (Bool-cases (set_severity severity l).0) [
      | inl valid ↦ rw valid (with_file-IsGraded _ _ (set_severity severity l).1 graded')
      | inr invalid ↦ rw invalid graded'
    ]

append_to-IsGraded :
    (str : TimeStamp → Bytes) (o : Answers) (line : Bytes) (a : Appender) (l : Logger)
    → IsGraded l
    → IsGradedRun (append_to str o line a l)
unfolding append_to
append_to-IsGraded str o line to_stdout l graded = graded
append_to-IsGraded str o line (to_file s) l graded =
    IsGradedRun->>= (append str o line s) _ (λ s'. graded)

log-IsGraded :
    (str : TimeStamp → Bytes) (severity : ℕ) (origin : Origin) (o : Answers) (message : Bytes)
    (l : Logger)
    → IsGraded l
    → IsGradedRun (log str severity origin o message l)
unfolding log logger_append
log-IsGraded str severity origin o message l graded =
    elim (Bool-cases (ltb_ℤ (pos severity) l.severity)) [
      | inl quiet ↦ rw quiet graded
      | inr loud ↦ rw loud (
          IsGradedRun-then _ _
            (append_to-IsGraded str o (record_line severity origin message) l.appender l graded)
            (λ l' graded'. elim (Bool-cases (severity == 3)) [
              | inl worst ↦ rw worst tt
              | inr milder ↦ rw milder graded'
            ]))
    ]

use_logger-IsGraded :
    (str : TimeStamp → Bytes) (u : Use) (l : Logger) → IsGraded l → IsGradedRun (use_logger str u l)
unfolding use_logger log_if
use_logger-IsGraded str (severity_set severity) l graded = set_severity-IsGraded severity l graded
use_logger-IsGraded str (appender_set a) l graded = set_appender-IsGraded a l graded
use_logger-IsGraded str (log_started logfile severity rollover_min now left_over f st) l graded =
    init_log-IsGraded logfile severity rollover_min now left_over f st l graded
use_logger-IsGraded str (logged true severity origin o message) l graded =
    log-IsGraded str severity origin o message l graded
use_logger-IsGraded str (logged false severity origin o message) l graded = graded

use_all-IsGraded :
    (str : TimeStamp → Bytes) (us : List Use) (l : Logger)
    → IsGraded l
    → IsGradedRun (use_all str us l)
use_all-IsGraded str [] l graded = graded
use_all-IsGraded str (u ∷ us) l graded =
    IsGradedRun-then (use_logger str u l) _ (use_logger-IsGraded str u l graded)
      (use_all-IsGraded str us)

log_aborts :
    (str : TimeStamp → Bytes) (origin : Origin) (o : Answers) (message : Bytes) (l l' : Logger)
    → IsGraded l
    → log str 3 origin o message l ≢ returns l'
unfolding log
log_aborts str origin o message l l' (_, top) run =
    let loud : (logger_append str o (record_line 3 origin message) l >>= λ _. fault) ≡ returns l' =
      rw top at run in
    let (_, _, e) =
      >>=-eq-returns (logger_append str o (record_line 3 origin message) l) (λ _. fault) loud in
    cc

-- In whatever order a program sets severities and appenders, starts logs and logs messages, a severity
-- that is none of the four included, `LOG_FATAL` and `PLOG_FATAL` do not return afterwards: no setting
-- silences them.
pub use_all-log :
    (str : TimeStamp → Bytes) (us : List Use) (origin : Origin) (o : Answers) (message : Bytes)
    (l l' : Logger)
    → use_all str us new_logger ≡ returns l
    → log str 3 origin o message l ≢ returns l'
unfolding new_logger
use_all-log str us origin o message l l' run =
    log_aborts str origin o message l l'
      (subst IsGradedRun run (use_all-IsGraded str us new_logger (refl, refl)))
