-- ===== src/Logger.antt =====
-- system/libFeline/src/logging/logger.cpp: the class `kout`, and what writes a line with it. A string is the
-- list of its characters, and a view the string that it shows. The outputs that the settings name are
-- commands on a state `W`; all of them are set.
pub mod Copy
pub mod Digits
pub mod Lines
pub mod Debug
pub mod Printable
use feline_os.Base.{
  ℕ, zero, suc, ◌+◌, ◌≡◌, Bool, true, false, Option, none, some, List, [], ◌∷◌, ◌++◌, length, set,
  if◌then◌else◌, ltb, ◌==◌,
}
use feline_os.Run.{Cmd, done, aborted, stuck, pure, ◌>>=◌, ◌>>◌, abort, get, assert}
use feline_os.Spinlock.{LockOps}
use feline_os.Numbers.{ntostr, ntostr_buffer, isprint}

pub data LogLevel : Type 0 where
  critical : LogLevel
  error : LogLevel
  warning : LogLevel
  log : LogLevel
  debug : LogLevel

-- `std::source_location`.
pub record SourceLocation : Type 0 where
  pub file_name : List ℕ
  pub line : ℕ
  pub column : ℕ
  pub function_name : List ℕ

pub record Logging (L W : Type 0) : Type 0 where
  pub output_lock : L
  pub outputs : W

pub record Kout (W : Type 0) : Type 0 where
  pub strings : List (List ℕ)
  pub lifetime_extender : List (List ℕ)
  pub func : List ℕ → Cmd W (Unit {0})
  pub alloc : Bool

-- "FOS Critical " and so on.
abbrev pub heading : LogLevel → List ℕ
heading critical = 70 ∷ 79 ∷ 83 ∷ 32 ∷ 67 ∷ 114 ∷ 105 ∷ 116 ∷ 105 ∷ 99 ∷ 97 ∷ 108 ∷ 32 ∷ []
heading error = 70 ∷ 79 ∷ 83 ∷ 32 ∷ 69 ∷ 114 ∷ 114 ∷ 111 ∷ 114 ∷ 32 ∷ []
heading warning = 70 ∷ 79 ∷ 83 ∷ 32 ∷ 87 ∷ 97 ∷ 114 ∷ 110 ∷ 105 ∷ 110 ∷ 103 ∷ 32 ∷ []
heading log = 70 ∷ 79 ∷ 83 ∷ 32 ∷ 76 ∷ 111 ∷ 103 ∷ 32 ∷ []
heading debug = 70 ∷ 79 ∷ 83 ∷ 32 ∷ 68 ∷ 101 ∷ 98 ∷ 117 ∷ 103 ∷ 32 ∷ []

-- What `operator<<` takes.
pub data Item : Type 0 where
  view : List ℕ → Item
  string : List ℕ → Item
  char : ℕ → Item

abbrev pub drop : ℕ → List ℕ → List ℕ
drop zero cs = cs
drop (suc n) [] = []
drop (suc n) (c ∷ cs) = drop n cs

-- `file_name()[LOG_PATH_PREFIX_TRUNCATE_LEN]` and what follows; a longer prefix than the name gives nothing.
abbrev pub relative_path : ℕ → SourceLocation → List ℕ
relative_path truncate_len loc = drop truncate_len loc.file_name

-- `KString dec`; none where `itostr` does not end.
abbrev pub dec : ℕ → ℕ → ℕ → Option (List ℕ)
dec fuel n min_width = ntostr fuel n 10 min_width

-- `itostr` to a buffer of the caller.
abbrev pub itostr_buffer : ℕ → Option (List ℕ)
itostr_buffer n = ntostr_buffer n 10

abbrev pub nulls : ℕ → List ℕ
nulls zero = []
nulls (suc n) = 0 ∷ nulls n

-- `std::copy` to the index `i`.
unfoldable pub copy_at : List ℕ → ℕ → List ℕ → List ℕ
copy_at [] i full = full
copy_at (c ∷ cs) i full = copy_at cs (i + 1) (set full i c)

-- The second loop of `do_write`; none is an index out of bounds.
unfoldable pub copy_strings : List (List ℕ) → ℕ → List ℕ → Option (List ℕ)
unfolding copy_at
copy_strings [] current_index full = some full
copy_strings (str ∷ strs) current_index full =
    let rest = copy_strings strs (current_index + length str) (copy_at str current_index full) in
    if ltb current_index (length full) then rest else none

-- Its first loop.
abbrev pub total_length : List (List ℕ) → ℕ
total_length [] = 0
total_length (str ∷ strs) = length str + total_length strs

module _ {L W : Type 0} where
  -- `func(str.data(), str.size())`.
  abbrev pub call_func : (List ℕ → Cmd W (Unit {0})) → List ℕ → Cmd (Logging L W) (Unit {0})
  call_func func str s = elim (func str s.outputs) [
    | done a w ↦ done tt (record s { outputs = w })
    | aborted ↦ aborted
    | stuck ↦ stuck
  ]

  abbrev pub acquire_lock : LockOps L → Cmd (Logging L W) (Unit {0})
  acquire_lock ops s = elim (ops.acquire s.output_lock) [
    | none ↦ stuck
    | some l ↦ done tt (record s { output_lock = l })
  ]

  abbrev pub release_lock : LockOps L → Cmd (Logging L W) (Unit {0})
  release_lock ops s = done tt (record s { output_lock = ops.release s.output_lock })

  -- The call behind the loops of `do_write`.
  abbrev pub write_locked :
      LockOps L → (List ℕ → Cmd W (Unit {0})) → List ℕ → Cmd (Logging L W) (Unit {0})
  write_locked ops func str = acquire_lock ops >> call_func func str >> release_lock ops

  unfoldable pub add_part : List ℕ → Kout W → Cmd (Logging L W) (Kout W)
  add_part str k =
      if k.alloc
      then pure (record k { strings = k.strings ++ (str ∷ []) })
      else (call_func k.func str >> pure k)

  unfoldable pub do_write : LockOps L → Kout W → Cmd (Logging L W) (Unit {0})
  do_write ops k = do
    assert k.alloc
    elim (copy_strings k.strings 0 (nulls (total_length k.strings))) [
      | none ↦ abort
      | some full_string ↦ write_locked ops k.func full_string
    ]

  -- The three `kout::operator<<`.
  unfoldable pub write_item : Item → Kout W → Cmd (Logging L W) (Kout W)
  write_item (view str) k = add_part str k
  write_item (string str) k =
      if k.alloc
      then add_part str (record k { lifetime_extender = k.lifetime_extender ++ (str ∷ []) })
      else add_part str k
  write_item (char c) k =
      if k.alloc
      then add_part (c ∷ [])
          (record k { lifetime_extender = k.lifetime_extender ++ ((c ∷ []) ∷ []) })
      else add_part (c ∷ []) k

  unfoldable pub write_items : List Item → Kout W → Cmd (Logging L W) (Kout W)
  write_items [] k = pure k
  write_items (i ∷ is) k = write_item i k >>= write_items is

  -- A number that the constructor writes: `dec`, or the digits in a buffer where nothing is allocated.
  unfoldable pub write_number : ℕ → ℕ → Kout W → Cmd (Logging L W) (Kout W)
  write_number fuel n k =
      if k.alloc
      then elim (dec fuel n 1) [ none ↦ λ _. stuck | some str ↦ write_item (string str) k ]
      else elim (itostr_buffer n) [ none ↦ λ _. stuck | some buf ↦ write_item (view buf) k ]

  -- The constructor.
  unfoldable pub construct :
      ℕ
      → ℕ
      → (LogLevel → List ℕ → Cmd W (Unit {0}))
      → LogLevel
      → SourceLocation
      → Bool
      → Cmd (Logging L W) (Kout W)
  construct fuel truncate_len settings level loc alloc = do
    k0 ←
        add_part (heading level)
          (record { strings = []; lifetime_extender = []; func = settings level; alloc = alloc })
    k1 ← write_item (view (relative_path truncate_len loc)) k0
    k2 ← write_item (char 58) k1
    k3 ← write_number fuel loc.line k2
    k4 ← write_item (char 58) k3
    k5 ← write_number fuel loc.column k4
    k6 ← write_item (char 40) k5
    k7 ← write_item (view loc.function_name) k6
    write_item (view (41 ∷ 58 ∷ 32 ∷ [])) k7

  -- The destructor.
  unfoldable pub destroy : LockOps L → Kout W → Cmd (Logging L W) (Unit {0})
  destroy ops k = do k' ← add_part (10 ∷ []) k; if k'.alloc then do_write ops k' else pure tt

  -- `kLog() << a << b;` and its like.
  unfoldable pub log_line :
      LockOps L
      → ℕ
      → ℕ
      → (LogLevel → List ℕ → Cmd W (Unit {0}))
      → LogLevel
      → SourceLocation
      → Bool
      → List Item
      → Cmd (Logging L W) (Unit {0})
  log_line ops fuel truncate_len settings level loc alloc items = do
    k ← construct fuel truncate_len settings level loc alloc
    k' ← write_items items k
    destroy ops k'
