-- ===== src/DeviceTree/Walk.antt =====
-- What `for_each_prop_in_node` visits of a device tree that is laid out in memory.
use feline_os.Base.{
  ℕ, zero, suc, ◌+◌, ◌≤◌, ◌<◌, ◌≡◌, refl, sym, ap, fun_ext, ◌∙◌, Bool, true, false, List, [], ◌∷◌,
  ◌++◌, if◌then◌else◌, u32_mod, arith,
}
use feline_os.Run.{Run, Cmd, done, aborted, stuck, pure, ◌>>=◌, ◌>>◌, bind-done}
use feline_os.DeviceTree.{
  DevicetreeCellSize, DeviceTree, node_type, prop_len, default_cells, increment_fdt_struct,
  read_cells, node_loop, for_each_prop_in_node,
}
use feline_os.DeviceTree.Entry.{
  padded, IsString, increment-node, increment-prop, increment-nop, increment-end,
}
use mathlib.Core.List.{append-nil}
use feline_os.Run.Sequence.{bind-steps, call_run, drop_result, run_all, run_all-append}
use feline_os.DeviceTree.Layout.{
  Items, end, nop, prop, node, size, rounds, Holds, agree, has_prefix-agree, plus_assoc,
  plus_assoc_3, calls, IsFlattened, all_calls,
}

module _ {S : Type 0} (t : DeviceTree) (prefix : ℕ)
    (callback : ℕ → DevicetreeCellSize → Cmd S (Unit {0})) where
  -- The walk at each kind of entry.
  loop-end :
      (fuel : ℕ) (matched : Bool) (curr next : DevicetreeCellSize) (p : ℕ) (s : S)
      → node_type t.memory p ≡ 2
      → p + 4 < u32_mod
      → node_loop t prefix callback (suc fuel) matched curr next p s ≡ done (p + 4) s
  unfolding node_loop
  loop-end fuel matched curr next p s kind lt = simp kind (increment-end fuel p t.memory s kind lt)

  loop-nop :
      (fuel : ℕ) (matched : Bool) (curr next : DevicetreeCellSize) (p : ℕ) (s : S)
      → node_type t.memory p ≡ 4
      → p + 4 < u32_mod
      → node_loop t prefix callback (suc fuel) matched curr next p s
        ≡ node_loop t prefix callback fuel matched curr next (p + 4) s
  unfolding node_loop
  loop-nop fuel matched curr next p s kind lt = simp kind (
      bind-done (increment_fdt_struct fuel t.memory p)
        (node_loop t prefix callback fuel matched curr next) s s (p + 4)
        (increment-nop fuel p t.memory s kind lt))

  loop-prop :
      (fuel : ℕ) (matched : Bool) (curr next : DevicetreeCellSize) (p len : ℕ) (s : S)
      → node_type t.memory p ≡ 3
      → prop_len t.memory p ≡ len
      → p + (12 + padded len) < u32_mod
      → node_loop t prefix callback (suc fuel) matched curr next p s
        ≡ ((if matched then callback p curr else pure tt)
              >> node_loop t prefix callback fuel matched curr
                  (read_cells t p next)
                  (p + (12 + padded len)))
            s
  unfolding node_loop
  loop-prop fuel matched curr next p len s kind l lt = simp kind (
      ap (λ (k : Cmd S ℕ). ((if matched then callback p curr else pure tt) >> k) s)
        (fun_ext (λ s'.
          bind-done (increment_fdt_struct fuel t.memory p)
            (node_loop t prefix callback fuel matched curr (read_cells t p next)) s' s'
            (p + (12 + padded len)) (increment-prop fuel p t.memory s' len kind l lt))))

  loop-node :
      (fuel : ℕ) (matched : Bool) (curr next : DevicetreeCellSize) (p n k : ℕ) (s : S)
      → ((q : ℕ) → t.memory q < 256)
      → IsString t.memory prefix k
      → k < fuel
      → node_type t.memory p ≡ 1
      → IsString t.memory (p + 4) n
      → n < fuel
      → p + (4 + padded (n + 1)) < u32_mod
      → node_loop t prefix callback (suc fuel) matched curr next p s
        ≡ (node_loop t prefix callback fuel
                (agree k 0 prefix (p + 4) t.memory)
                next
                default_cells
                (p + (4 + padded (n + 1)))
              >>= λ behind. node_loop t prefix callback fuel matched curr next behind)
            s
  unfolding node_loop
  loop-node fuel matched curr next p n k s byte str kf kind name nf lt =
      simp (kind, has_prefix-agree fuel prefix k p t.memory byte str kf)
        (bind-done (increment_fdt_struct fuel t.memory p)
          (λ inner.
            node_loop t prefix callback fuel (agree k 0 prefix (p + 4) t.memory) next default_cells
              inner
            >>= λ behind. node_loop t prefix callback fuel matched curr next behind)
          s s (p + (4 + padded (n + 1))) (increment-node fuel p t.memory s n kind name nf lt))

  abbrev visit : List (ℕ × DevicetreeCellSize) → Cmd S (Unit {0})
  visit = run_all (λ (e : ℕ × DevicetreeCellSize). callback e.0 e.1)

  -- A property or a node, with the calls of what follows.
  loop-prop_calls :
      (fuel : ℕ) (matched : Bool) (curr next : DevicetreeCellSize) (p len q : ℕ)
      (rest : List (ℕ × DevicetreeCellSize)) (s : S)
      → node_type t.memory p ≡ 3
      → prop_len t.memory p ≡ len
      → p + (12 + padded len) < u32_mod
      → ((s' : S)
          → node_loop t prefix callback fuel matched curr
              (read_cells t p next)
              (p + (12 + padded len))
              s'
            ≡ (visit rest >>= λ _. pure q) s')
      → node_loop t prefix callback (suc fuel) matched curr next p s
        ≡ (visit ((if matched then (p, curr) ∷ [] else []) ++ rest) >>= λ _. pure q) s
  loop-prop_calls fuel true curr next p len q rest s kind l lt behind =
      loop-prop fuel true curr next p len s kind l lt
      ∙ ap (λ l. l s)
          (call_run
            (node_loop t prefix callback fuel true curr (read_cells t p next)
              (p + (12 + padded len)))
            (visit rest) q (callback p curr s) behind)
  loop-prop_calls fuel false curr next p len q rest s kind l lt behind =
      loop-prop fuel false curr next p len s kind l lt ∙ behind s

  loop-node_calls :
      (fuel : ℕ) (matched : Bool) (curr next : DevicetreeCellSize) (p n plen q r : ℕ)
      (inner rest : List (ℕ × DevicetreeCellSize)) (s : S)
      → ((a : ℕ) → t.memory a < 256)
      → IsString t.memory prefix plen
      → plen < fuel
      → node_type t.memory p ≡ 1
      → IsString t.memory (p + 4) n
      → n < fuel
      → p + (4 + padded (n + 1)) < u32_mod
      → node_loop t prefix callback fuel
          (agree plen 0 prefix (p + 4) t.memory)
          next
          default_cells
          (p + (4 + padded (n + 1)))
          s
        ≡ (visit inner >>= λ _. pure q) s
      → ((s' : S)
          → node_loop t prefix callback fuel matched curr next q s'
            ≡ (visit rest >>= λ _. pure r) s')
      → node_loop t prefix callback (suc fuel) matched curr next p s
        ≡ (visit (inner ++ rest) >>= λ _. pure r) s
  loop-node_calls fuel matched curr next p n plen q r inner rest s byte str pf kind name nf lt
        within behind =
      loop-node fuel matched curr next p n plen s byte str pf kind name nf lt
      ∙ bind-steps
          (node_loop t prefix callback fuel (agree plen 0 prefix (p + 4) t.memory) next
            default_cells (p + (4 + padded (n + 1))))
          (λ b. node_loop t prefix callback fuel matched curr next b) (visit inner) (visit rest) q r
          s within behind
      ∙ ap
          (λ u. elim u as (λ v. Run S ℕ) [
            | done a t ↦ done r t
            | aborted ↦ aborted
            | stuck ↦ stuck
          ])
          (sym (run_all-append (λ (e : ℕ × DevicetreeCellSize). callback e.0 e.1) inner rest s))

  node_loop-calls :
      (k plen : ℕ) (items : Items) (fuel : ℕ) (matched : Bool) (curr next : DevicetreeCellSize)
      (p : ℕ) (s : S)
      → ((q : ℕ) → t.memory q < 256)
      → IsString t.memory prefix plen
      → plen < k
      → Holds k t.memory p items
      → p + size items < u32_mod
      → rounds items + k ≤ fuel
      → node_loop t prefix callback fuel matched curr next p s
        ≡ (visit (calls t prefix plen matched curr next p items) >>= λ _. pure (p + size items)) s
  node_loop-calls k plen end zero matched curr next p s byte str pk h lt enough =
      absurd (omega arith)
  node_loop-calls k plen (nop rest) zero matched curr next p s byte str pk h lt enough =
      absurd (omega arith)
  node_loop-calls k plen (prop len rest) zero matched curr next p s byte str pk h lt enough =
      absurd (omega arith)
  node_loop-calls k plen (node n body rest) zero matched curr next p s byte str pk h lt enough =
      absurd (omega arith)
  node_loop-calls k plen end (suc fuel) matched curr next p s byte str pk h lt enough =
      loop-end fuel matched curr next p s h lt
  node_loop-calls k plen (nop rest) (suc fuel) matched curr next p s byte str pk h lt enough =
      loop-nop fuel matched curr next p s h.0 (omega arith)
      ∙ node_loop-calls k plen rest fuel matched curr next (p + 4) s byte str pk h.1 (omega arith)
          (omega arith)
      ∙ ap (λ q. (visit (calls t prefix plen matched curr next (p + 4) rest) >>= λ _. pure q) s)
          (plus_assoc p 4 (size rest))
  node_loop-calls k plen (prop len rest) (suc fuel) matched curr next p s byte str pk h lt enough =
      loop-prop_calls fuel matched curr next p len (p + size (prop len rest))
        (calls t prefix plen matched curr (read_cells t p next) (p + (12 + padded len)) rest) s h.0
        h.1 (omega arith)
        (λ s'.
          node_loop-calls k plen rest fuel matched curr (read_cells t p next)
            (p + (12 + padded len)) s' byte str pk h.2 (omega arith) (omega arith)
          ∙ ap
              (λ q.
                (visit (
                      calls t prefix plen matched curr (read_cells t p next) (p + (12 + padded len))
                        rest)
                    >>= λ _. pure q)
                  s')
              (plus_assoc p (12 + padded len) (size rest)))
  node_loop-calls k plen (node n body rest) (suc fuel) matched curr next p s byte str pk h lt
        enough =
      loop-node_calls fuel matched curr next p n plen (p + (4 + padded (n + 1)) + size body)
        (p + size (node n body rest))
        (calls t prefix plen (agree plen 0 prefix (p + 4) t.memory) next default_cells
          (p + (4 + padded (n + 1))) body)
        (calls t prefix plen matched curr next (p + (4 + padded (n + 1)) + size body) rest) s byte
        str (omega arith) h.0 h.1 (omega arith) (omega arith)
        (node_loop-calls k plen body fuel (agree plen 0 prefix (p + 4) t.memory) next default_cells
          (p + (4 + padded (n + 1))) s byte str pk h.3 (omega arith) (omega arith))
        (λ s'.
          node_loop-calls k plen rest fuel matched curr next (p + (4 + padded (n + 1)) + size body)
            s' byte str pk h.4 (omega arith) (omega arith)
          ∙ ap
              (λ q.
                (visit (
                      calls t prefix plen matched curr next (p + (4 + padded (n + 1)) + size body)
                        rest)
                    >>= λ _. pure q)
                  s')
              (plus_assoc_3 p (4 + padded (n + 1)) (size body) (size rest)))

  loop-behind :
      (fuel : ℕ) (matched : Bool) (curr next : DevicetreeCellSize) (p : ℕ) (s : S)
      → node_type t.memory p ≡ 9
      → node_loop t prefix callback (suc fuel) matched curr next p s ≡ done p s
  unfolding node_loop
  loop-behind fuel matched curr next p s kind = simp kind refl

  -- With fuel for the entries and the longest string, `for_each_prop_in_node` ends on a tree that is laid
  -- out in memory, and does what the callbacks do one after another: one for each property of a node whose
  -- name begins with the prefix, whatever the nodes around it are called, in the order of the
  -- tree and with the sizes of cells that the node around gives.
  pub for_each_prop_in_node-all_calls :
      (k n plen fuel : ℕ) (body : Items) (s : S)
      → IsFlattened k n body t
      → IsString t.memory prefix plen
      → plen < k
      → rounds body + k + 1 ≤ fuel
      → for_each_prop_in_node t prefix callback fuel s
        ≡ run_all
            (λ (e : ℕ × DevicetreeCellSize). callback e.0 e.1)
            (all_calls t prefix plen n body)
            s
  unfolding for_each_prop_in_node
  for_each_prop_in_node-all_calls k n plen zero body s f str pk enough = absurd (omega arith)
  for_each_prop_in_node-all_calls k n plen (suc zero) body s f str pk enough = absurd (omega arith)
  for_each_prop_in_node-all_calls k n plen (suc (suc fuel)) body s f str pk enough =
      ap
        (λ u. elim u as (λ v. Run S (Unit {0})) [
          | done a t ↦ done tt t
          | aborted ↦ aborted
          | stuck ↦ stuck
        ])
        (loop-node_calls (suc fuel) false default_cells default_cells t.structs n plen
          (t.structs + (4 + padded (n + 1)) + size body)
          (t.structs + (4 + padded (n + 1)) + size body) (all_calls t prefix plen n body) [] s
          f.bytes str (omega arith) f.root f.name (omega (arith, f.short)) (omega (arith, f.fits))
          (node_loop-calls k plen body (suc fuel) (agree plen 0 prefix (t.structs + 4) t.memory)
            default_cells default_cells (t.structs + (4 + padded (n + 1))) s f.bytes str pk f.items
            f.fits (omega arith))
          (λ s'.
            loop-behind fuel false default_cells default_cells
              (t.structs + (4 + padded (n + 1)) + size body) s' f.behind))
      ∙ drop_result (visit (all_calls t prefix plen n body ++ []) s)
          (t.structs + (4 + padded (n + 1)) + size body)
      ∙ ap (λ l. visit l s) (append-nil (all_calls t prefix plen n body))
