-- ===== src/Scheduler/Pick.antt =====
-- Which task `find_next_task` picks.
use feline_os.Base.{
  ℕ, suc, ◌+◌, ◌≤◌, ◌<◌, ◌≡◌, refl, subst, ◌⊎◌, inl, inr, Option, none, some, List, [], ◌∷◌, arith,
  ltb, Bool-cases, length, get_elem?, get_elem?-lt,
}
use feline_os.Scheduler.{
  Task, TaskState, runnable, finished, is_runnable, consider, find_loop, find_next_task,
}

-- What is known of the best after the tasks before index `n`.
abbrev pub Picks : List Task → ℕ → Option (ℕ × Task) → Type 0
Picks ts n none = (j : ℕ) (u : Task) → j < n → get_elem? ts j ≡ some u → u.state ≡ finished
Picks ts n (some (b, t)) =
    (b < n)
    × (get_elem? ts b ≡ some t)
    × (t.state ≡ runnable)
    × ((j : ℕ) (u : Task)
        → j < n
        → get_elem? ts j ≡ some u
        → u.state ≡ runnable
        → (t.num_times_scheduled ≤ u.num_times_scheduled)
          × (j < b → t.num_times_scheduled < u.num_times_scheduled))

pub TaskState-cases : (s : TaskState) → (s ≡ runnable) ⊎ (s ≡ finished)
TaskState-cases runnable = inl refl
TaskState-cases finished = inr refl

split_last : (j n : ℕ) → j < n + 1 → (j < n) ⊎ (j ≡ n)
split_last j n h = ground arith

module _ (ts : List Task) (i : ℕ) (p : Task) (at : get_elem? ts i ≡ some p) where
  same_at : (j : ℕ) (u : Task) → j ≡ i → get_elem? ts j ≡ some u → u ≡ p
  same_at j u e h = ground (arith, at)

  consider-none : Picks ts i none → Picks ts (i + 1) (consider i p none)
  unfolding consider is_runnable
  consider-none b = elim (TaskState-cases p.state) [
    | inl r ↦ simp r (
      omega arith,
      at,
      refl,
      λ j u lt h hu. elim (split_last j i lt) [
        | inl l ↦ absurd (cc (b j u l h))
        | inr e ↦ (ground (arith, same_at j u e h), λ l. absurd (omega (arith, e)))
      ],
    )
    | inr f ↦ rw f (λ j u lt h. elim (split_last j i lt) [
      | inl l ↦ b j u l h
      | inr e ↦ ground (arith, same_at j u e h)
    ])
  ]

  consider-some :
      (c : ℕ) (t : Task) → Picks ts i (some (c, t)) → Picks ts (i + 1) (consider i p (some (c, t)))
  unfolding consider is_runnable
  consider-some c t (lt, hit, r, best) = elim (TaskState-cases p.state) [
    | inl rp ↦ elim (Bool-cases (ltb p.num_times_scheduled t.num_times_scheduled)) [
      | inl less ↦
          simp (rp, less)
            (
              omega arith,
              at,
              refl,
              λ j u l h hu. elim (split_last j i l) [
                | inl l' ↦ ground (arith, best j u l' h hu)
                | inr e ↦ (ground (arith, same_at j u e h), λ l'. absurd (omega (arith, e)))
              ],
            )
      | inr more ↦
          rw (rp, more)
            (
              omega arith,
              hit,
              r,
              λ j u l h hu. elim (split_last j i l) [
                | inl l' ↦ best j u l' h hu
                | inr e ↦ (ground (arith, same_at j u e h), λ l'. absurd (omega (arith, e, lt)))
              ],
            )
    ]
    | inr fp ↦ rw fp (
      omega arith,
      hit,
      r,
      λ j u l h hu. elim (split_last j i l) [
        | inl l' ↦ best j u l' h hu
        | inr e ↦ absurd (cc (same_at j u e h))
      ],
    )
  ]

  consider-Picks :
      (best : Option (ℕ × Task)) → Picks ts i best → Picks ts (i + 1) (consider i p best)
  consider-Picks none b = consider-none b
  consider-Picks (some (c, t)) b = consider-some c t b

find_loop-Picks :
    (ts ps : List Task) (i n : ℕ) (best : Option (ℕ × Task))
    → ((k : ℕ) → get_elem? ts (i + k) ≡ get_elem? ps k)
    → i + length ps ≡ n
    → Picks ts i best
    → Picks ts n (find_loop ps i best)
unfolding find_loop
find_loop-Picks ts [] i n best same e b =
    let e' : i ≡ n = omega arith in subst (λ m. Picks ts m best) e' b
find_loop-Picks ts (p ∷ ps) i n best same e b =
    find_loop-Picks ts ps (i + 1) n (consider i p best) (λ k. shift k) (omega arith)
      (consider-Picks ts i p here best b)
  where
    here : get_elem? ts i ≡ some p
    here = let z : i + 0 ≡ i = omega arith in subst (λ m. get_elem? ts m ≡ some p) z (same 0)

    shift : (k : ℕ) → get_elem? ts (i + 1 + k) ≡ get_elem? ps k
    shift k =
        let z : i + suc k ≡ i + 1 + k = omega arith in
        subst (λ m. get_elem? ts m ≡ get_elem? ps k) z (same (suc k))

pub find_next_task-Picks : (ts : List Task) → Picks ts (length ts) (find_next_task ts)
unfolding find_next_task
find_next_task-Picks ts =
    find_loop-Picks ts ts 0 (length ts) none (λ k. start k) (omega arith)
      (λ j u l h. absurd (omega arith))
  where
    start : (k : ℕ) → get_elem? ts (0 + k) ≡ get_elem? ts k
    start k = let z : k ≡ 0 + k = omega arith in subst (λ m. get_elem? ts m ≡ get_elem? ts k) z refl

-- The picked task, by its index: runnable, with the least count of the runnable tasks, and the first
-- of those. No pick: every task is finished.
abbrev pub IsNext : List Task → Option (ℕ × Task) → Type 0
IsNext ts none = (j : ℕ) (u : Task) → get_elem? ts j ≡ some u → u.state ≡ finished
IsNext ts (some (b, t)) =
    (get_elem? ts b ≡ some t)
    × (t.state ≡ runnable)
    × ((j : ℕ) (u : Task)
        → get_elem? ts j ≡ some u
        → u.state ≡ runnable
        → (t.num_times_scheduled ≤ u.num_times_scheduled)
          × (j < b → t.num_times_scheduled < u.num_times_scheduled))

Picks-IsNext : (ts : List Task) (r : Option (ℕ × Task)) → Picks ts (length ts) r → IsNext ts r
Picks-IsNext ts none b = λ j u h. b j u (get_elem?-lt ts j u h) h
Picks-IsNext ts (some (c, t)) (lt, hit, r, best) =
    (hit, r, λ j u h hu. best j u (get_elem?-lt ts j u h) h hu)

-- `find_next_task` picks a runnable task with the least count of all runnable tasks of the list, the
-- first of those with that count; it picks none only where every task of the list is finished.
pub find_next_task-IsNext : (ts : List Task) → IsNext ts (find_next_task ts)
find_next_task-IsNext ts = Picks-IsNext ts (find_next_task ts) (find_next_task-Picks ts)
