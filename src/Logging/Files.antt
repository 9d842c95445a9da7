-- ===== src/Logging/Files.antt =====
-- The files that an appender opens and closes.
use small_rpc.Prelude.{
  ℕ, Bool-cases, inl, inr, ◌==◌, ==_refl, ◌≡◌, refl, subst, sym, ap, ◌∙◌, if◌then◌else◌, ltb, List,
  [], ◌∷◌, ◌++◌, length, take, Bytes, codes, Option, none, some, ℤ, Run, returns, fault,
  out_of_fuel, ◌>>=◌,
}
use small_rpc.Logging.{
  Effect, closed, renamed, opened, wrote, Stat, Answers, Appending, new_appender, open_file,
  close_held, close_file, init, is_due, reopens, reopen, rename, do_rollover, write_line, append,
  ino_after,
}
use small_rpc.TimeStamp.{TimeStamp}

-- Which file is open after an effect; the outer `none` where the effect is out of place: a file opened
-- while one is open, or closed or written while it is not.
abbrev pub after : Effect → Option ℕ → Option (Option ℕ)
after (closed f) none = none
after (closed f) (some g) = if f == g then some none else none
after (renamed old new) held = some held
after (opened name f) none = some (some f)
after (opened name f) (some g) = none
after (wrote f bytes) none = none
after (wrote f bytes) (some g) = if f == g then some (some g) else none

abbrev pub step : Effect → Option (Option ℕ) → Option (Option ℕ)
step e none = none
step e (some held) = after e held

abbrev pub replay : List Effect → Option (Option ℕ) → Option (Option ℕ)
replay [] held = held
replay (e ∷ es) held = replay es (step e held)

-- What the appender did was in place, and what is open now is `_f`.
abbrev pub IsTidy : Appending → Type 0
IsTidy s = replay s.effects (some none) ≡ some s.file.f

replay_more :
    (es : List Effect) (e : Effect) (held : Option (Option ℕ))
    → replay (es ++ e ∷ []) held ≡ step e (replay es held)
replay_more [] e held = refl
replay_more (d ∷ es) e held = replay_more es e (step d held)

-- One more effect.
IsTidy-more :
    (s : Appending) (e : Effect) {held : Option ℕ}
    → IsTidy s
    → s.file.f ≡ held
    → replay (s.effects ++ e ∷ []) (some none) ≡ after e held
IsTidy-more s e tidy now = replay_more s.effects e (some none) ∙ ap (step e) (tidy ∙ ap some now)

abbrev IsShut : Appending → Type 0
IsShut s = IsTidy s × (s.file.f ≡ none)

open_file-IsTidy :
    (f : Option ℕ) (st : Stat) (s : Appending) → IsShut s → IsTidy (open_file f st s).1
unfolding open_file
open_file-IsTidy none st s (tidy, shut) = tidy ∙ ap some shut
open_file-IsTidy (some f) st s (tidy, shut) = IsTidy-more s (opened s.file.filename f) tidy shut

close_held-IsShut :
    (held : Option ℕ) (s : Appending) → IsTidy s → s.file.f ≡ held → IsShut (close_held held s)
unfolding close_held
close_held-IsShut none s tidy now = (tidy, now)
close_held-IsShut (some f) s tidy now =
    (IsTidy-more s (closed f) tidy now ∙ rw (==_refl f) refl, refl)

close_file-IsShut : (s : Appending) → IsTidy s → IsShut (close_file s)
unfolding close_file
close_file-IsShut s tidy = close_held-IsShut s.file.f s tidy refl

rename-IsShut : (str : TimeStamp → Bytes) (s : Appending) → IsShut s → IsShut (rename str s)
unfolding rename
rename-IsShut str s (tidy, shut) = (
  IsTidy-more s (renamed s.file.filename (s.file.filename ++ (codes "." ++ str s.file.t))) tidy shut
      ∙ sym (ap some shut),
  shut,
)

reopen-IsTidy : (o : Answers) (s : Appending) → IsShut s → IsTidy (reopen o s)
unfolding reopen
reopen-IsTidy o s shut = open_file-IsTidy o.fopen o.opened_stat s shut

do_rollover-IsTidy :
    (str : TimeStamp → Bytes) (o : Answers) (s : Appending)
    → IsTidy s
    → IsTidy (do_rollover str o s)
unfolding do_rollover
do_rollover-IsTidy str o s tidy =
    let seen : Appending = record s {
      file = record s.file { st_ino = ino_after o.stat s.file.st_ino };
    } in
    elim (Bool-cases (is_due o.now s.file)) [
      | inl due ↦ rw due (
          reopen-IsTidy o (rename str (close_file s))
            (rename-IsShut str (close_file s) (close_file-IsShut s tidy)))
      | inr early ↦ rw early (elim (Bool-cases (reopens o.stat s.file.file_node)) [
        | inl other ↦ rw other (reopen-IsTidy o (close_file seen) (close_file-IsShut seen tidy))
        | inr same ↦ rw same tidy
      ])
    ]

abbrev IsTidyRun : Run Appending → Type 0
IsTidyRun (returns s) = IsTidy s
IsTidyRun fault = Unit
IsTidyRun out_of_fuel = Unit

IsTidyRun->>= :
    (m : Run Appending) (f : Appending → Run Appending)
    → IsTidyRun m
    → ((s : Appending) → IsTidy s → IsTidyRun (f s))
    → IsTidyRun (m >>= f)
IsTidyRun->>= (returns s) f tidy next = next s tidy
IsTidyRun->>= fault f tidy next = tt
IsTidyRun->>= out_of_fuel f tidy next = tt

write_line-IsTidy :
    (held : Option ℕ) (o : Answers) (line : Bytes) (s : Appending)
    → IsTidy s
    → s.file.f ≡ held
    → IsTidyRun (write_line held o line s)
unfolding write_line
write_line-IsTidy none o line s tidy now = tt
write_line-IsTidy (some f) o line s tidy now =
    let bytes = take o.fwrite line in
    let s' : Appending = record s { effects = s.effects ++ wrote f bytes ∷ [] } in
    let tidy' : IsTidy s' =
      IsTidy-more s (wrote f bytes) tidy now ∙ rw (==_refl f) refl ∙ sym (ap some now) in
    elim (Bool-cases (ltb o.fwrite (length line))) [
      | inl cut ↦
          rw cut (
            open_file-IsTidy o.retry_fopen o.retry_stat (close_file s')
              (close_file-IsShut s' tidy'))
      | inr whole ↦ rw whole tidy'
    ]

-- The lines of a program, with the answers of the system to each.
abbrev pub appends : (TimeStamp → Bytes) → List (Answers × Bytes) → Appending → Run Appending
appends str [] s = returns s
appends str ((o, line) ∷ lines) s = append str o line s >>= appends str lines

appends-IsTidyRun :
    (str : TimeStamp → Bytes) (lines : List (Answers × Bytes)) (s : Appending)
    → IsTidy s
    → IsTidyRun (appends str lines s)
unfolding append
appends-IsTidyRun str [] s tidy = tidy
appends-IsTidyRun str ((o, line) ∷ lines) s tidy =
    let rolled = do_rollover str o s in
    IsTidyRun->>= (append str o line s) _
      (write_line-IsTidy rolled.file.f o line rolled (do_rollover-IsTidy str o s tidy) refl)
      (λ s' tidy'. appends-IsTidyRun str lines s' tidy')

-- Whatever the system answers, as long as the program runs on after these lines: an appender that was made
-- and given a file never closes or writes a file that is not open, never opens one while another is
-- open, and the one that is open in the end is `_f`.
pub appends-IsTidy :
    (str : TimeStamp → Bytes) (lines : List (Answers × Bytes)) (now : TimeStamp) (left_over : ℕ)
    (logfile : Bytes) (rollover_min : ℤ) (f : Option ℕ) (st : Stat) {s : Appending}
    → appends str lines (init logfile rollover_min f st (new_appender now left_over)).1 ≡ returns s
    → replay s.effects (some none) ≡ some s.file.f
unfolding init new_appender
appends-IsTidy str lines now left_over logfile rollover_min f st run =
    subst IsTidyRun run (appends-IsTidyRun str lines _ (open_file-IsTidy f st _ (refl, refl)))
