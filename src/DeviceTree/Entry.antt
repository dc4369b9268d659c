-- ===== src/DeviceTree/Entry.antt =====
-- Single entries of the flattened tree: how far `increment_fdt_struct` goes, and what the walk does next.
use feline_os.Base.{ℕ, ◌+◌, ◌*◌, ◌/◌, ◌<◌, ◌≡◌, ◌≢◌, ap, u32_mod, arith}
use feline_os.Run.{done}
use feline_os.Strings.{Bytes}
use feline_os.Strings.Compare.{strlen-first}
use feline_os.DeviceTree.{node_type, prop_len, pad_len, increment_fdt_struct}

-- The next multiple of 4.
abbrev pub padded : ℕ → ℕ
padded n = (n + 3) / 4 * 4

-- A string of `n` bytes before its null byte.
pub record IsString (m : Bytes) (str n : ℕ) : Type 0 where
  pub ends : m (str + n) ≡ 0
  pub before : (j : ℕ) → j < n → m (str + j) ≢ 0

pad_len-padded : (n : ℕ) → padded n < u32_mod → pad_len n ≡ padded n
unfolding pad_len
pad_len-padded n lt = ground arith

module _ {S : Type 0} (fuel p : ℕ) (m : Bytes) (s : S) where
  pub increment-node :
      (n : ℕ)
      → node_type m p ≡ 1
      → IsString m (p + 4) n
      → n < fuel
      → p + (4 + padded (n + 1)) < u32_mod
      → increment_fdt_struct fuel m p s ≡ done (p + (4 + padded (n + 1))) s
  unfolding increment_fdt_struct
  increment-node n kind str enough lt =
      simp (kind, strlen-first fuel (p + 4) n m enough str.ends str.before)
        (ap (λ q. done q s) (ground (arith, pad_len-padded (n + 1))))

  pub increment-prop :
      (len : ℕ)
      → node_type m p ≡ 3
      → prop_len m p ≡ len
      → p + (12 + padded len) < u32_mod
      → increment_fdt_struct fuel m p s ≡ done (p + (12 + padded len)) s
  unfolding increment_fdt_struct
  increment-prop len kind l lt =
      simp (kind, l) (ap (λ q. done q s) (ground (arith, pad_len-padded len)))

  pub increment-nop :
      node_type m p ≡ 4 → p + 4 < u32_mod → increment_fdt_struct fuel m p s ≡ done (p + 4) s
  unfolding increment_fdt_struct
  increment-nop kind lt = simp kind (ap (λ q. done q s) (omega arith))

  pub increment-end :
      node_type m p ≡ 2 → p + 4 < u32_mod → increment_fdt_struct fuel m p s ≡ done (p + 4) s
  unfolding increment_fdt_struct
  increment-end kind lt = simp kind (ap (λ q. done q s) (omega arith))
