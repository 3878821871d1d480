-- ===== src/Prominence.antt =====
-- The prominence levels of crates/levshell-ipc/src/messages.rs, in their total order.
use levshell.Prelude.{ℕ, ◌≡◌, ◌↔◌, Bool, arith, ltb, ◌==◌}

pub data Prominence : Type 0 where
  hidden badge icon_only compact visible expanded : Prominence

-- The derived `Ord` compares the variants in the order of their declaration.
abbrev pub rank : Prominence → ℕ
rank hidden = 0
rank badge = 1
rank icon_only = 2
rank compact = 3
rank visible = 4
rank expanded = 5

-- `a == b` and `a < b`.
abbrev pub prom_eq : Prominence → Prominence → Bool
prom_eq a b = rank a == rank b

abbrev pub prom_lt : Prominence → Prominence → Bool
prom_lt a b = ltb (rank a) (rank b)

pub rank-injective : (a b : Prominence) → rank a ≡ rank b → a ≡ b
rank-injective a b h = ground arith

pub prom_eq_iff : (a b : Prominence) → (prom_eq a b ≡ Bool.true) ↔ (a ≡ b)
prom_eq_iff a b = ground (arith, rank-injective a b)
