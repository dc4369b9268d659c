-- ===== src/DeviceTree/Layout.antt =====
-- A device tree that is laid out in memory, and the callbacks that a walk over it owes.
use feline_os.Base.{
  ℕ, zero, suc, ◌+◌, ◌<◌, ◌≡◌, refl, ap, ◌∙◌, Bool, true, false, Option, none, some, List, [], ◌∷◌,
  ◌++◌, ◌&&◌, ◌==◌, if◌then◌else◌, u32_mod, arith,
}
use feline_os.Strings.{Bytes, equal, strncmp, strncmp_loop}
use feline_os.Strings.Compare.{strlen-first}
use feline_os.DeviceTree.{
  DevicetreeCellSize, DeviceTree, node_type, prop_len, default_cells, has_prefix, read_cells,
}
use feline_os.DeviceTree.Entry.{padded, IsString}

-- What stands in a node from an entry on: the end of the node, a property with the length of its value, or
-- a node with the length of its name and with its own items.
pub data Items : Type 0 where
  end : Items
  nop : Items → Items
  prop : ℕ → Items → Items
  node : ℕ → Items → Items → Items

abbrev pub size : Items → ℕ
size end = 4
size (nop rest) = 4 + size rest
size (prop len rest) = 12 + padded len + size rest
size (node n body rest) = 4 + padded (n + 1) + (size body + size rest)

abbrev pub rounds : Items → ℕ
rounds end = 1
rounds (nop rest) = suc (rounds rest)
rounds (prop len rest) = suc (rounds rest)
rounds (node n body rest) = suc (rounds body + rounds rest)

-- Memory holds the items from `p` on, with names shorter than `k`.
abbrev pub Holds : ℕ → Bytes → ℕ → Items → Type 0
Holds k m p end = node_type m p ≡ 2
Holds k m p (nop rest) = (node_type m p ≡ 4) × Holds k m (p + 4) rest
Holds k m p (prop len rest) =
    (node_type m p ≡ 3) × (prop_len m p ≡ len) × Holds k m (p + (12 + padded len)) rest
Holds k m p (node n body rest) =
    (node_type m p ≡ 1)
    × IsString m (p + 4) n
    × (n < k)
    × Holds k m (p + (4 + padded (n + 1))) body
    × Holds k m (p + (4 + padded (n + 1)) + size body) rest

-- Whether `n` bytes from index `i` on agree.
abbrev pub agree : ℕ → ℕ → ℕ → ℕ → Bytes → Bool
agree zero i a b m = true
agree (suc n) i a b m = (m (a + i) == m (b + i)) && agree n (i + 1) a b m

pub plus_assoc : (a b c : ℕ) → a + b + c ≡ a + (b + c)
plus_assoc a b c = omega arith

pub plus_assoc_3 : (a b c d : ℕ) → a + b + c + d ≡ a + (b + (c + d))
plus_assoc_3 a b c d = omega arith

strncmp_loop-agree :
    (n i a b : ℕ) (m : Bytes)
    → ((q : ℕ) → m q < 256)
    → (elim (strncmp_loop n i a b m) as (λ o. Bool) [ equal ↦ true | _ ↦ false ]) ≡ agree n i a b m
unfolding strncmp_loop
strncmp_loop-agree zero i a b m byte = refl
strncmp_loop-agree (suc n) i a b m byte =
    ground (arith, byte (a + i), byte (b + i), strncmp_loop-agree n (i + 1) a b m byte)

pub has_prefix-agree :
    (fuel prefix k entry : ℕ) (m : Bytes)
    → ((q : ℕ) → m q < 256)
    → IsString m prefix k
    → k < fuel
    → has_prefix fuel m prefix entry ≡ some (agree k 0 prefix (entry + 4) m)
unfolding has_prefix strncmp
has_prefix-agree fuel prefix k entry m byte str lt =
    ap
      (λ o. elim o as (λ v. Option Bool) [
        | none ↦ none
        | some len ↦
            some
              (elim (strncmp prefix (entry + 4) len m) as (λ v. Bool) [ equal ↦ true | _ ↦ false ])
      ])
      (strlen-first fuel prefix k m lt str.ends str.before)
    ∙ ap some (strncmp_loop-agree k 0 prefix (entry + 4) m byte)

-- The callbacks due from the items at `p` on, in the order of the calls: one for each property, with the
-- sizes of cells in the node around, of every node whose name begins with the prefix of `plen` bytes.
-- `matched` says whether the node around does, `curr` and `next` are the sizes there and in its children.
abbrev pub calls :
    DeviceTree
    → ℕ
    → ℕ
    → Bool
    → DevicetreeCellSize
    → DevicetreeCellSize
    → ℕ
    → Items
    → List (ℕ × DevicetreeCellSize)
calls t prefix plen matched curr next p end = []
calls t prefix plen matched curr next p (nop rest) =
    calls t prefix plen matched curr next (p + 4) rest
calls t prefix plen matched curr next p (prop len rest) =
    (if matched then (p, curr) ∷ [] else [])
    ++ calls t prefix plen matched curr (read_cells t p next) (p + (12 + padded len)) rest
calls t prefix plen matched curr next p (node n body rest) =
    calls t prefix plen (agree plen 0 prefix (p + 4) t.memory) next default_cells
      (p + (4 + padded (n + 1))) body
    ++ calls t prefix plen matched curr next (p + (4 + padded (n + 1)) + size body) rest

-- The structure block at `structs`: the root, with a name of `n` bytes, its items, and `FDT_END` behind.
pub record IsFlattened (k n : ℕ) (body : Items) (t : DeviceTree) : Type 0 where
  pub bytes : (q : ℕ) → t.memory q < 256
  pub root : node_type t.memory t.structs ≡ 1
  pub name : IsString t.memory (t.structs + 4) n
  pub short : n < k
  pub items : Holds k t.memory (t.structs + (4 + padded (n + 1))) body
  pub behind : node_type t.memory (t.structs + (4 + padded (n + 1)) + size body) ≡ 9
  pub fits : t.structs + (4 + padded (n + 1)) + size body < u32_mod

-- The calls of a walk over the whole tree.
abbrev pub all_calls : DeviceTree → ℕ → ℕ → ℕ → Items → List (ℕ × DevicetreeCellSize)
all_calls t prefix plen n body =
    calls t prefix plen (agree plen 0 prefix (t.structs + 4) t.memory) default_cells default_cells
      (t.structs + (4 + padded (n + 1))) body
