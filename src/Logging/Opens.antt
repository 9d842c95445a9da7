-- ===== src/Logging/Opens.antt =====
-- When a line can be written to a file, what is written of it, and when it can not.
use small_rpc.Prelude.{
  ℕ, Bool-cases, inl, inr, true, ◌≡◌, refl, ltb, List, [], ◌∷◌, ◌++◌, ◌∙◌, ap, sym, map, take,
  append_assoc, append-nil, All, length, Bytes, Option, none, some, Run, returns, fault, ◌||◌,
}
use small_rpc.Logging.{
  Effect, closed, renamed, opened, wrote, Stat, Answers, Appending, open_file, close_held,
  close_file, is_due, reopens, reopen, rename, do_rollover, write_line, append,
}
use small_rpc.Logging.Files.{appends}
use small_rpc.TimeStamp.{TimeStamp}

abbrev pub HasFile : Appending → Type 0
HasFile s = (f : ℕ) × (s.file.f ≡ some f)

abbrev pub Opened : Option ℕ → Type 0
Opened f = (g : ℕ) × (f ≡ some g)

-- Both calls of `fopen` that a line may need succeed.
abbrev pub Opens : Answers × Bytes → Type 0
Opens (o, line) = Opened o.fopen × Opened o.retry_fopen

open_file-HasFile :
    (f : Option ℕ) (st : Stat) (s : Appending) → Opened f → HasFile (open_file f st s).1
unfolding open_file
open_file-HasFile none st s (g, e) = absurd (cc)
open_file-HasFile (some f) st s e = (f, refl)

reopen-HasFile : (o : Answers) (s : Appending) → Opened o.fopen → HasFile (reopen o s)
unfolding reopen
reopen-HasFile o s e = open_file-HasFile o.fopen o.opened_stat s e

do_rollover-HasFile :
    (str : TimeStamp → Bytes) (o : Answers) (s : Appending)
    → Opened o.fopen
    → HasFile s
    → HasFile (do_rollover str o s)
unfolding do_rollover
do_rollover-HasFile str o s e h = elim (Bool-cases (is_due o.now s.file)) [
  | inl due ↦ rw due (reopen-HasFile o (rename str (close_file s)) e)
  | inr early ↦ rw early (elim (Bool-cases (reopens o.stat s.file.file_node)) [
    | inl other ↦ rw other (reopen-HasFile o _ e)
    | inr same ↦ rw same h
  ])
]

-- What was written to the files, line by line.
unfoldable pub written : List Effect → List Bytes
written [] = []
written (closed f ∷ es) = written es
written (renamed old new ∷ es) = written es
written (opened name f ∷ es) = written es
written (wrote f bytes ∷ es) = bytes ∷ written es

written_more : (es ds : List Effect) → written (es ++ ds) ≡ written es ++ written ds
unfolding written
written_more [] ds = refl
written_more (closed f ∷ es) ds = written_more es ds
written_more (renamed old new ∷ es) ds = written_more es ds
written_more (opened name f ∷ es) ds = written_more es ds
written_more (wrote f bytes ∷ es) ds = ap (λ lines. bytes ∷ lines) (written_more es ds)

-- Nothing was written in between.
abbrev IsQuiet : Appending → Appending → Type 0
IsQuiet s s' = written s'.effects ≡ written s.effects

quiet_more :
    (es : List Effect) (e : Effect) → written (e ∷ []) ≡ [] → written (es ++ e ∷ []) ≡ written es
quiet_more es e quiet =
    written_more es (e ∷ []) ∙ ap (λ lines. written es ++ lines) quiet ∙ append-nil (written es)

open_file-IsQuiet : (f : Option ℕ) (st : Stat) (s : Appending) → IsQuiet s (open_file f st s).1
unfolding open_file written
open_file-IsQuiet none st s = refl
open_file-IsQuiet (some f) st s = quiet_more s.effects (opened s.file.filename f) refl

close_held-IsQuiet : (held : Option ℕ) (s : Appending) → IsQuiet s (close_held held s)
unfolding close_held written
close_held-IsQuiet none s = refl
close_held-IsQuiet (some f) s = quiet_more s.effects (closed f) refl

close_file-IsQuiet : (s : Appending) → IsQuiet s (close_file s)
unfolding close_file
close_file-IsQuiet s = close_held-IsQuiet s.file.f s

rename-IsQuiet : (str : TimeStamp → Bytes) (s : Appending) → IsQuiet s (rename str s)
unfolding rename written
rename-IsQuiet str s = quiet_more s.effects _ refl

reopen-IsQuiet : (o : Answers) (s : Appending) → IsQuiet s (reopen o s)
unfolding reopen
reopen-IsQuiet o s = open_file-IsQuiet o.fopen o.opened_stat s

do_rollover-IsQuiet :
    (str : TimeStamp → Bytes) (o : Answers) (s : Appending) → IsQuiet s (do_rollover str o s)
unfolding do_rollover
do_rollover-IsQuiet str o s = elim (Bool-cases (is_due o.now s.file)) [
  | inl due ↦ rw due (
      reopen-IsQuiet o (rename str (close_file s))
      ∙ rename-IsQuiet str (close_file s)
      ∙ close_file-IsQuiet s)
  | inr early ↦ rw early (elim (Bool-cases (reopens o.stat s.file.file_node)) [
    | inl other ↦ rw other (reopen-IsQuiet o _ ∙ close_file-IsQuiet _)
    | inr same ↦ rw same refl
  ])
]

-- The run ends with a file, and wrote `bytes` and nothing else.
abbrev Writes : List Bytes → Appending → Run Appending → Type 0
Writes bytes s run =
    (s' : Appending) × (run ≡ returns s')
    × HasFile s'
    × (written s'.effects ≡ written s.effects ++ bytes)

write_line-Writes :
    (held : Option ℕ) (o : Answers) (line : Bytes) (s : Appending)
    → Opened held
    → s.file.f ≡ held
    → Opened o.retry_fopen
    → Writes (take o.fwrite line ∷ []) s (write_line held o line s)
unfolding write_line written
write_line-Writes none o line s (g, e) now again = absurd (cc)
write_line-Writes (some f) o line s e now again =
    let one = written_more s.effects (wrote f (take o.fwrite line) ∷ []) in
    elim (Bool-cases (ltb o.fwrite (length line))) [
      | inl cut ↦ rw cut (
        _,
        refl,
        open_file-HasFile o.retry_fopen o.retry_stat _ again,
        open_file-IsQuiet o.retry_fopen o.retry_stat _ ∙ close_file-IsQuiet _ ∙ one,
      )
      | inr whole ↦ rw whole (_, refl, (f, now), one)
    ]

-- What `fwrite` takes of each line.
abbrev pub taken : Answers × Bytes → Bytes
taken (o, line) = take o.fwrite line

-- If the appender has a file and every call of `fopen` succeeds, then no append fails, the appender has a file
-- in the end, and its files were given, in the order of the lines, of each line as many bytes as
-- `fwrite` took, and nothing else: the whole line unless `fwrite` takes fewer, and then the rest of the
-- line is lost.
pub appends-HasFile :
    (str : TimeStamp → Bytes) (lines : List (Answers × Bytes)) (s : Appending)
    → HasFile s
    → All Opens lines
    → (s' : Appending) × (appends str lines s ≡ returns s')
      × HasFile s'
      × (written s'.effects ≡ written s.effects ++ map taken lines)
unfolding append
appends-HasFile str [] s h all = (s, refl, h, sym (append-nil (written s.effects)))
appends-HasFile str ((o, line) ∷ lines) s h ((first, again), all) =
    let rolled = do_rollover str o s in
    let (s1, done, h1, one) =
      write_line-Writes rolled.file.f o line rolled (do_rollover-HasFile str o s first h) refl
        again in
    let (s2, later, h2, rest) = appends-HasFile str lines s1 h1 all in
    (
      s2,
      rw done later,
      h2,
      rest
          ∙ ap (λ before. before ++ map taken lines)
              (one ∙ ap (λ before. before ++ take o.fwrite line ∷ []) (do_rollover-IsQuiet str o s))
          ∙ append_assoc (written s.effects) (take o.fwrite line ∷ []) (map taken lines),
    )

reopen_fails : (o : Answers) (s : Appending) → o.fopen ≡ none → (reopen o s).file.f ≡ none
unfolding reopen open_file
reopen_fails o s e = rw e refl

-- Where `do_rollover` has to open the file again and `fopen` fails, the line that comes next is written
-- to a null pointer.
pub append_fault :
    (str : TimeStamp → Bytes) (o : Answers) (line : Bytes) (s : Appending)
    → o.fopen ≡ none
    → (is_due o.now s.file || reopens o.stat s.file.file_node) ≡ true
    → append str o line s ≡ fault
unfolding append do_rollover write_line
append_fault str o line s fails needed = elim (Bool-cases (is_due o.now s.file)) [
  | inl due ↦ rw due (rw (reopen_fails o (rename str (close_file s)) fails) refl)
  | inr early ↦
      let other : reopens o.stat s.file.file_node ≡ true = rw early at needed in
      rw (early, other) (rw (reopen_fails o _ fails) refl)
]
