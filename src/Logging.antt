-- ===== src/Logging.antt =====
-- base/logging.h: the logger, its severity, and the appender that writes a file and rolls it over. What the
-- system answers is an argument, and so is the text of times, process and thread.
pub mod Files
pub mod Opens
pub mod Severity
use small_rpc.Prelude.{
  ℕ, Bool, true, false, ◌==◌, ◌&&◌, not, ltb, if◌then◌else◌, List, [], ◌∷◌, ◌++◌, length, take,
  Bytes, codes, Option, none, some, ℤ, pos, negsuc, ltb_ℤ, ◌-ℤ◌, times, Run, returns, fault, ◌>>=◌,
}
use small_rpc.TimeStamp.{TimeStamp}

-- `_LogFileAppender`; a `FILE*` is a number, and `st_ino` is the one of `_file_stat`.
pub record FileAppender : Type 0 where
  pub f : Option ℕ
  pub file_node : ℕ
  pub rollover_s : ℤ
  pub t : TimeStamp
  pub filename : Bytes
  pub st_ino : ℕ

-- What an appender did to files: `fclose`, `rename`, a `fopen` that gave a file, and the bytes that `fwrite` took.
pub data Effect : Type 0 where
  closed : ℕ → Effect
  renamed : Bytes → Bytes → Effect
  opened : Bytes → ℕ → Effect
  wrote : ℕ → Bytes → Effect

-- The answer of `stat`: an inode, `ENOENT`, or another error.
pub data Stat : Type 0 where
  found : ℕ → Stat
  missing : Stat
  stat_failed : Stat

-- The answers of the system to one `append`: the clock, the first `stat`, `fopen` and `stat` of `do_rollover`,
-- how many bytes `fwrite` takes, and `fopen` and `stat` after it fell short.
pub record Answers : Type 0 where
  pub now : TimeStamp
  pub stat : Stat
  pub fopen : Option ℕ
  pub opened_stat : Stat
  pub fwrite : ℕ
  pub retry_fopen : Option ℕ
  pub retry_stat : Stat

-- An appender with what it did, in order.
pub record Appending : Type 0 where
  pub file : FileAppender
  pub effects : List Effect

unfoldable pub new_appender : TimeStamp → ℕ → Appending
new_appender now left_over = record {
  file = record {
    f = none;
    file_node = 0;
    rollover_s = negsuc 0;
    t = now;
    filename = [];
    st_ino = left_over;
  };
  effects = [];
}

-- `_file_stat.st_ino` after a `stat`, which leaves it where it fails.
unfoldable pub ino_after : Stat → ℕ → ℕ
ino_after (found ino) old = ino
ino_after missing old = old
ino_after stat_failed old = old

-- `open`
unfoldable pub open_file : Option ℕ → Stat → Appending → Bool × Appending
open_file none st s = (false, record s { file = record s.file { f = none } })
open_file (some f) st s = (
  true,
  record s {
    file = record s.file {
      f = some f;
      st_ino = ino_after st s.file.st_ino;
      file_node = ino_after st s.file.st_ino;
    };
    effects = s.effects ++ opened s.file.filename f ∷ [];
  },
)

-- `close`, which is the destructor too.
unfoldable pub close_held : Option ℕ → Appending → Appending
close_held none s = s
close_held (some f) s = record s {
  file = record s.file { f = none };
  effects = s.effects ++ closed f ∷ [];
}

unfoldable pub close_file : Appending → Appending
close_file s = close_held s.file.f s

-- `init`
unfoldable pub init : Bytes → ℤ → Option ℕ → Stat → Appending → Bool × Appending
init logfile rollover_min f st s =
    open_file f st
      (record s { file = record s.file { filename = logfile; rollover_s = times rollover_min 60 } })

unfoldable pub is_due : TimeStamp → FileAppender → Bool
is_due now a = ltb_ℤ (pos 0) a.rollover_s && not (ltb_ℤ (now.sec -ℤ a.t.sec) a.rollover_s)

-- Whether the file at the path is another one, or none.
unfoldable pub reopens : Stat → ℕ → Bool
reopens (found ino) node = not (node == ino)
reopens missing node = true
reopens stat_failed node = false

unfoldable pub reopen : Answers → Appending → Appending
reopen o s =
    let s' = (open_file o.fopen o.opened_stat s).1 in
    record s' { file = record s'.file { t = o.now } }

unfoldable pub rename : (TimeStamp → Bytes) → Appending → Appending
rename str s = record s {
  effects =
      s.effects ++ renamed s.file.filename (s.file.filename ++ (codes "." ++ str s.file.t)) ∷ [];
}

-- `do_rollover`, with `str` of a time; it answers `true`.
unfoldable pub do_rollover : (TimeStamp → Bytes) → Answers → Appending → Appending
do_rollover str o s =
    if is_due o.now s.file
    then reopen o (rename str (close_file s))
    else (let s' = record s { file = record s.file { st_ino = ino_after o.stat s.file.st_ino } } in
        if reopens o.stat s.file.file_node then reopen o (close_file s') else s')

-- What follows `do_rollover`; `fwrite` is handed `_f` as it is.
unfoldable pub write_line : Option ℕ → Answers → Bytes → Appending → Run Appending
write_line none o line s = fault
write_line (some f) o line s =
    let s' = record s { effects = s.effects ++ wrote f (take o.fwrite line) ∷ [] } in
    if ltb o.fwrite (length line)
    then returns (open_file o.retry_fopen o.retry_stat (close_file s')).1
    else returns s'

-- `append`
unfoldable pub append : (TimeStamp → Bytes) → Answers → Bytes → Appending → Run Appending
append str o line s = let s' = do_rollover str o s in write_line s'.file.f o line s'

-- A `_LogAppender`: `_LogStdoutAppender` or `_LogFileAppender`.
pub data Appender : Type 0 where
  to_stdout : Appender
  to_file : Appending → Appender

-- `_Logger`, what was printed, and what appenders did that it had before.
pub record Logger : Type 0 where
  pub severity : ℤ
  pub appender : Appender
  pub printed : Bytes
  pub past : List Effect

unfoldable pub new_logger : Logger
new_logger = record { severity = pos 0; appender = to_stdout; printed = []; past = [] }

-- `set_severity`
unfoldable pub set_severity : ℤ → Logger → Bool × Logger
set_severity severity l =
    if not (ltb_ℤ severity (pos 0)) && not (ltb_ℤ (pos 3) severity)
    then (true, record l { severity = severity })
    else (false, l)

-- What an appender did once its destructor has run.
unfoldable pub destroy : Appender → List Effect
destroy to_stdout = []
destroy (to_file s) = (close_file s).effects

-- `set_appender`; `none` is a null pointer, and nothing else owns the old appender.
unfoldable pub set_appender : Option Appender → Logger → Bool × Logger
set_appender none l = (false, l)
set_appender (some a) l = (true, record l { appender = a; past = l.past ++ destroy l.appender })

unfoldable pub with_file : Bool × Appending → Logger → Bool × Logger
with_file (done, s) l = if done then set_appender (some (to_file s)) l else (false, l)

-- `init_log`
unfoldable pub init_log : Bytes → ℤ → ℤ → TimeStamp → ℕ → Option ℕ → Stat → Logger → Bool × Logger
init_log logfile severity rollover_min now left_over f st l =
    let (valid, l') = set_severity severity l in
    if valid
    then with_file (init logfile rollover_min f st (new_appender now left_over)) l'
    else (false, l')

-- The virtual `append`.
unfoldable pub append_to : (TimeStamp → Bytes) → Answers → Bytes → Appender → Logger → Run Logger
append_to str o line to_stdout l = returns (record l { printed = l.printed ++ line })
append_to str o line (to_file s) l =
    append str o line s >>= λ s'. returns (record l { appender = to_file s' })

-- `_Logger::append`
unfoldable pub logger_append : (TimeStamp → Bytes) → Answers → Bytes → Logger → Run Logger
logger_append str o line l = append_to str o line l.appender l

-- `severity_map`
unfoldable pub severity_name : ℕ → Bytes
severity_name severity =
    if severity == 0
    then codes "DEBUG"
    else if severity == 1
    then codes "NOTICE"
    else if severity == 2
    then codes "WARNING"
    else codes "FATAL"

-- The texts of time, process, thread, file and line.
pub record Origin : Type 0 where
  pub time : Bytes
  pub pid : Bytes
  pub thread : Bytes
  pub source_file : Bytes
  pub lineno : Bytes

-- What a `_LogRecord` has written when it is destroyed.
unfoldable pub record_line : ℕ → Origin → Bytes → Bytes
record_line severity o message =
    severity_name severity
    ++ (codes ": "
        ++ (o.time
            ++ (codes " * "
                ++ (o.pid
                    ++ (codes " * "
                        ++ (o.thread
                            ++ (codes " "
                                ++ (codes "["
                                    ++ (o.source_file
                                        ++ (codes ":"
                                            ++ (o.lineno
                                                ++ (codes "]: " ++ (message ++ 10 ∷ [])))))))))))))

-- What a `_PLogRecord` adds to a message, from the texts of `errno` and of its meaning.
unfoldable pub with_errno : Bytes → Bytes → Bytes → Bytes
with_errno err_no err_msg message =
    message
    ++ (codes " with err_no: " ++ (err_no ++ (codes ", err_msg: " ++ (err_msg ++ codes "."))))

-- `LOG_DEBUG` to `LOG_FATAL`, for the severities from 0 to 3, and their forms with `errno`, which
-- hand over a longer message; 3 aborts.
unfoldable pub log : (TimeStamp → Bytes) → ℕ → Origin → Answers → Bytes → Logger → Run Logger
log str severity origin o message l =
    if not (ltb_ℤ (pos severity) l.severity)
    then (logger_append str o (record_line severity origin message) l >>= λ l'.
        if severity == 3 then fault else returns l')
    else returns l

-- The forms with a condition.
unfoldable pub log_if :
    Bool → (TimeStamp → Bytes) → ℕ → Origin → Answers → Bytes → Logger → Run Logger
log_if test str severity origin o message l =
    if test then log str severity origin o message l else returns l
