-- ===== src/Tests/Logs.antt =====
-- The theorems on system/libFeline/src/logging/logger.cpp.
use feline_os.Base.{ℕ, ◌≡◌, ◌∷◌, ◌++◌, [], List, map, true, false, some, none, Bool, refl, arith}
use feline_os.Run.{Cmd, done, ◌>>◌}
use feline_os.Spinlock.{LockOps}
use feline_os.Logger.{
  LogLevel, SourceLocation, Logging, Item, view, char, dec, call_func, acquire_lock, release_lock,
  log_line, warning,
}
use feline_os.Logger.Copy.{concat}
use feline_os.Logger.Debug.{str_debug, str_debug-spins}
use feline_os.Logger.Printable.{Prints, str_debug-Prints}
use feline_os.Logger.Lines.{text_of, start_of, log_line-writes}

abbrev output_lock : LockOps Bool
output_lock = record {
  acquire = λ l. some true;
  release = λ l. false;
  try_acquire = λ l. (true, true);
}

-- An output that keeps all characters.
abbrev settings : LogLevel → List ℕ → Cmd (List ℕ) (Unit {0})
settings level str w = done tt (w ++ str)

-- Line 42, column 7 of "a/b.c", in "f()".
abbrev place : SourceLocation
place = record {
  file_name = 97 ∷ 47 ∷ 98 ∷ 46 ∷ 99 ∷ [];
  line = 42;
  column = 7;
  function_name = 102 ∷ 40 ∷ 41 ∷ [];
}

abbrev quiet : Logging Bool (List ℕ)
quiet = record { output_lock = false; outputs = [] }

abbrev words : List Item
words = view (104 ∷ 105 ∷ []) ∷ char 33 ∷ []

log_line-writes_example :
    (line column : List ℕ) × (dec 11 42 1 ≡ some line)
    × (dec 11 7 1 ≡ some column)
    × (log_line output_lock 11 2 settings warning place true words quiet
        ≡ (acquire_lock output_lock
              >> call_func (settings warning) (
                  (start_of 2 warning place line column ++ concat (map text_of words)) ++ (10 ∷ []))
              >> release_lock output_lock)
            quiet)
log_line-writes_example =
    log_line-writes output_lock 2 settings warning place words quiet (omega arith) (omega arith)

-- "café", where é is 233.
str_debug-spins_example : str_debug 1_000 (99 ∷ 97 ∷ 102 ∷ 233 ∷ []) ≡ none
str_debug-spins_example = str_debug-spins 1_000 233 (99 ∷ 97 ∷ 102 ∷ []) [] (omega arith)

-- A word, an escape and a null.
str_debug-Prints_example : Prints (str_debug 11 (104 ∷ 105 ∷ 27 ∷ 0 ∷ 127 ∷ []))
str_debug-Prints_example = str_debug-Prints (104 ∷ 105 ∷ 27 ∷ 0 ∷ 127 ∷ []) refl (omega arith)
