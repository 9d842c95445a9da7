-- ===== src/Tests/LogTests.antt =====
-- base/logging.h at concrete inputs: tests/test_logging.cpp.
use small_rpc.Logging.Files.{appends, appends-IsTidy, replay}
use small_rpc.Logging.Opens.{HasFile, written, taken, appends-HasFile}
use small_rpc.Logging.Severity.{
  Use, severity_set, log_started, logged, use_logger, use_all, use_all-log,
}
use small_rpc.Logging.{
  found, Answers, Appending, Logger, Origin, new_appender, open_file, ino_after, close_held,
  close_file, init, is_due, reopens, reopen, rename, do_rollover, write_line, append, set_severity,
  set_appender, with_file, init_log, new_logger, append_to, logger_append, log, log_if, record_line,
  severity_name,
}
use small_rpc.Prelude.{
  ℕ, true, ◌≡◌, ◌≢◌, refl, List, [], ◌∷◌, Bytes, codes, none, ◌++◌, map, some, pos, returns, ◌-ℤ◌,
  times,
}
use small_rpc.TimeStamp.{TimeStamp}

abbrev at : ℕ → TimeStamp
at sec = record { sec = pos sec; msec = pos 0 }

abbrev text : TimeStamp → Bytes
text t = codes "old"

-- A line that finds the file as it is, one that is due after the rollover time, and one that is cut short.
abbrev calm : Answers
calm = record {
  now = at 10;
  stat = found 7;
  fopen = some 4;
  opened_stat = found 8;
  fwrite = 2;
  retry_fopen = some 5;
  retry_stat = found 8;
}

abbrev due : Answers
due = record calm { now = at 100 }

abbrev cut : Answers
cut = record calm { now = at 101; stat = found 8; fwrite = 1 }

abbrev lines : List (Answers × Bytes)
lines = (calm, codes "a\n") ∷ (due, codes "b\n") ∷ (cut, codes "c\n") ∷ []

abbrev first : Appending
first = (init (codes "log") (pos 1) (some 3) (found 7) (new_appender (at 0) 0)).1

opened : ℕ
unfolding init new_appender open_file ino_after append do_rollover is_due reopens reopen rename
    close_file close_held write_line times ◌-ℤ◌
opened = 0

lines_run : (s : Appending) × (appends text lines first ≡ returns s)
unfolding opened
lines_run = (_, refl)

appends-IsTidy_example : replay lines_run.0.effects (some none) ≡ some lines_run.0.file.f
appends-IsTidy_example =
    appends-IsTidy text lines (at 0) 0 (codes "log") (pos 1) (some 3) (found 7) lines_run.1

first-HasFile : HasFile first
unfolding opened
first-HasFile = (3, refl)

appends-HasFile_example :
    (s' : Appending) × (appends text lines first ≡ returns s')
    × HasFile s'
    × (written s'.effects ≡ written first.effects ++ map taken lines)
appends-HasFile_example =
    appends-HasFile text lines first first-HasFile
      (((4, refl), (5, refl)), (((4, refl), (5, refl)), (((4, refl), (5, refl)), tt)))

abbrev origin : Origin
origin = record {
  time = codes "t";
  pid = codes "1";
  thread = codes "2";
  source_file = codes "f.cpp";
  lineno = codes "3";
}

-- A severity that is refused, a log, and a message.
abbrev uses : List Use
uses =
    severity_set (pos 9)
    ∷ log_started (codes "log") (pos 2) (pos 1) (at 0) 0 (some 3) (found 7)
    ∷ logged true 2 origin calm (codes "hi")
    ∷ []

uses_run : (l : Logger) × (use_all text uses new_logger ≡ returns l)
unfolding opened use_logger set_severity init_log with_file set_appender log_if log logger_append
    append_to new_logger record_line severity_name
uses_run = (_, refl)

use_all-log_example : log text 3 origin calm (codes "end") uses_run.0 ≢ returns new_logger
use_all-log_example =
    use_all-log text uses origin calm (codes "end") uses_run.0 new_logger uses_run.1
