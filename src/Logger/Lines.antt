-- ===== src/Logger/Lines.antt =====
-- A whole line of the log: the constructor of `kout`, the items, and the destructor.
use feline_os.Base.{
  ℕ, ◌≡◌, ◌<◌, u32_mod, refl, ap, ap₂, sym, ◌∙◌, true, none, some, List, [], ◌∷◌, ◌++◌, map,
}
use feline_os.Run.{Cmd, done, ◌>>=◌, ◌>>◌, bind-done, abort}
use feline_os.Spinlock.{LockOps}
use feline_os.Logger.{
  LogLevel, SourceLocation, Logging, Kout, Item, view, string, char, heading, relative_path, dec,
  total_length, call_func, acquire_lock, release_lock, write_locked, add_part, do_write, write_item,
  write_items, write_number, construct, destroy, log_line,
}
use feline_os.Logger.Digits.{dec-ends}
use feline_os.Logger.Copy.{concat, append_assoc, append_nil, concat-append, copy_strings-concat}

abbrev pub text_of : Item → List ℕ
text_of (view str) = str
text_of (string str) = str
text_of (char c) = c ∷ []

-- What the constructor adds, by the digits of the line and of the column.
abbrev pub start_of : ℕ → LogLevel → SourceLocation → List ℕ → List ℕ → List ℕ
start_of truncate_len level loc line column =
    heading level
    ++ (relative_path truncate_len loc
        ++ (58 ∷ (line ++ (58 ∷ (column ++ (40 ∷ (loc.function_name ++ (41 ∷ 58 ∷ 32 ∷ []))))))))

module _ {W : Type 0} where
  concat-end :
      (k : Kout W) (str : List ℕ) → concat (k.strings ++ (str ∷ [])) ≡ concat k.strings ++ str
  concat-end k str =
      concat-append k.strings (str ∷ []) ∙ ap (λ l. concat k.strings ++ l) (append_nil str)

module _ {L W : Type 0} where
  -- Where `kout` allocates, the command writes nothing, and adds `str` to what is to be written.
  abbrev Adds : (Kout W → Cmd (Logging L W) (Kout W)) → List ℕ → Type 0
  Adds m str =
      (k : Kout W) (s : Logging L W)
      → k.alloc ≡ true
      → (k' : Kout W) × (m k s ≡ done k' s)
        × (k'.alloc ≡ true)
        × (k'.func ≡ k.func)
        × (concat k'.strings ≡ concat k.strings ++ str)

  Adds-bind :
      (m n : Kout W → Cmd (Logging L W) (Kout W)) (a b : List ℕ)
      → Adds m a
      → Adds n b
      → Adds (λ k. m k >>= n) (a ++ b)
  Adds-bind m n a b first second k s alloc =
      let (k1, run1, alloc1, func1, added1) = first k s alloc in
      let (k2, run2, alloc2, func2, added2) = second k1 s alloc1 in
      (
        k2,
        bind-done (m k) n s s k1 run1 ∙ run2,
        alloc2,
        func2 ∙ func1,
        added2 ∙ ap (λ l. l ++ b) added1 ∙ append_assoc (concat k.strings) a b,
      )

  add_part-Adds : (str : List ℕ) → Adds (add_part str) str
  unfolding add_part
  add_part-Adds str k s alloc = (
    record k { strings = k.strings ++ (str ∷ []) },
    simp alloc refl,
    alloc,
    refl,
    concat-end k str,
  )

  write_item-Adds : (i : Item) → Adds (write_item i) (text_of i)
  unfolding write_item add_part
  write_item-Adds (view str) k s alloc = (
    record k { strings = k.strings ++ (str ∷ []) },
    simp alloc refl,
    alloc,
    refl,
    concat-end k str,
  )
  write_item-Adds (string str) k s alloc = (
    record k {
      strings = k.strings ++ (str ∷ []);
      lifetime_extender = k.lifetime_extender ++ (str ∷ []);
    },
    simp alloc refl,
    alloc,
    refl,
    concat-end k str,
  )
  write_item-Adds (char c) k s alloc = (
    record k {
      strings = k.strings ++ ((c ∷ []) ∷ []);
      lifetime_extender = k.lifetime_extender ++ ((c ∷ []) ∷ []);
    },
    simp alloc refl,
    alloc,
    refl,
    concat-end k (c ∷ []),
  )

  write_items-Adds : (items : List Item) → Adds (write_items items) (concat (map text_of items))
  unfolding write_items
  write_items-Adds [] k s alloc = (k, refl, alloc, refl, sym (append_nil (concat k.strings)))
  write_items-Adds (i ∷ is) k s alloc =
      Adds-bind (write_item i) (write_items is) (text_of i) (concat (map text_of is))
        (write_item-Adds i) (write_items-Adds is) k s alloc

  write_number-Adds :
      (fuel n : ℕ) (str : List ℕ) → dec fuel n 1 ≡ some str → Adds (write_number fuel n) str
  unfolding write_number
  write_number-Adds fuel n str ends k s alloc =
      simp (alloc, ends) (write_item-Adds (string str) k s alloc)

  construct-Adds :
      (fuel truncate_len : ℕ) (settings : LogLevel → List ℕ → Cmd W (Unit {0})) (level : LogLevel)
      (loc : SourceLocation) (line column : List ℕ) (s : Logging L W)
      → dec fuel loc.line 1 ≡ some line
      → dec fuel loc.column 1 ≡ some column
      → (k : Kout W) × (construct fuel truncate_len settings level loc true s ≡ done k s)
        × (k.alloc ≡ true)
        × (k.func ≡ settings level)
        × (concat k.strings ≡ start_of truncate_len level loc line column)
  unfolding construct
  construct-Adds fuel truncate_len settings level loc line column s line_ends column_ends =
      Adds-bind (add_part (heading level)) _ (heading level) _ (add_part-Adds (heading level))
        (Adds-bind (write_item (view (relative_path truncate_len loc))) _
          (relative_path truncate_len loc) _
          (write_item-Adds (view (relative_path truncate_len loc)))
          (Adds-bind (write_item (char 58)) _ (58 ∷ []) _ (write_item-Adds (char 58)) (
            Adds-bind (write_number fuel loc.line) _ line _
              (write_number-Adds fuel loc.line line line_ends)
              (Adds-bind (write_item (char 58)) _ (58 ∷ []) _ (write_item-Adds (char 58)) (
                Adds-bind (write_number fuel loc.column) _ column _
                  (write_number-Adds fuel loc.column column column_ends)
                  (Adds-bind (write_item (char 40)) _ (40 ∷ []) _ (write_item-Adds (char 40)) (
                    Adds-bind (write_item (view loc.function_name)) _ loc.function_name _
                      (write_item-Adds (view loc.function_name))
                      (write_item-Adds (view (41 ∷ 58 ∷ 32 ∷ []))))))))))
        (record { strings = []; lifetime_extender = []; func = settings level; alloc = true }) s
        refl

  destroy-writes :
      (ops : LockOps L) (k : Kout W) (s : Logging L W)
      → k.alloc ≡ true
      → destroy ops k s ≡ write_locked ops k.func (concat k.strings ++ (10 ∷ [])) s
  unfolding destroy add_part do_write
  destroy-writes ops k s alloc = simp alloc (
      ap
        (λ o.
          (elim o as (λ v. Cmd (Logging L W) (Unit {0})) [
            | none ↦ abort
            | some str ↦ write_locked ops k.func str
          ])
            s)
        (copy_strings-concat k.strings 10 [] 0 (total_length (k.strings ++ ((10 ∷ []) ∷ []))) refl
            refl
          ∙ ap some (concat-end k (10 ∷ []))))

  line_with_digits :
      (ops : LockOps L) (fuel truncate_len : ℕ) (settings : LogLevel → List ℕ → Cmd W (Unit {0}))
      (level : LogLevel) (loc : SourceLocation) (items : List Item) (line column : List ℕ)
      (s : Logging L W)
      → dec fuel loc.line 1 ≡ some line
      → dec fuel loc.column 1 ≡ some column
      → log_line ops fuel truncate_len settings level loc true items s
        ≡ (acquire_lock ops
              >> call_func (settings level) (
                  (start_of truncate_len level loc line column ++ concat (map text_of items))
                  ++ (10 ∷ []))
              >> release_lock ops)
            s
  unfolding log_line
  line_with_digits ops fuel truncate_len settings level loc items line column s line_ends
        column_ends =
      let (k, run, alloc, func, text) =
        construct-Adds fuel truncate_len settings level loc line column s line_ends column_ends in
      let (k', run', alloc', func', text') = write_items-Adds items k s alloc in
      bind-done (construct fuel truncate_len settings level loc true) _ s s k run
      ∙ bind-done (write_items items k) _ s s k' run'
      ∙ destroy-writes ops k' s alloc'
      ∙ ap₂ (λ f str. write_locked ops f str s) (func' ∙ func)
          (ap (λ l. l ++ (10 ∷ [])) (text' ∙ ap (λ l. l ++ concat (map text_of items)) text))

  -- A line of the log, where `kout` allocates and the place in the source has numbers of 32 bits, is one call
  -- of the function that the setting of its level names, under the lock of the output: with the heading,
  -- the place with its numbers as `itostr` gives them, the items in their order, and a newline.
  pub log_line-writes :
      (ops : LockOps L) (truncate_len : ℕ) (settings : LogLevel → List ℕ → Cmd W (Unit {0}))
      (level : LogLevel) (loc : SourceLocation) (items : List Item) (s : Logging L W)
      → loc.line < u32_mod
      → loc.column < u32_mod
      → (line column : List ℕ) × (dec 11 loc.line 1 ≡ some line)
        × (dec 11 loc.column 1 ≡ some column)
        × (log_line ops 11 truncate_len settings level loc true items s
            ≡ (acquire_lock ops
                  >> call_func (settings level) (
                      (start_of truncate_len level loc line column ++ concat (map text_of items))
                      ++ (10 ∷ []))
                  >> release_lock ops)
                s)
  log_line-writes ops truncate_len settings level loc items s line_bits column_bits =
      let (line, line_ends) = dec-ends loc.line line_bits in
      let (column, column_ends) = dec-ends loc.column column_bits in
      (
        line,
        column,
        line_ends,
        column_ends,
        line_with_digits ops 11 truncate_len settings level loc items line column s line_ends
            column_ends,
      )
