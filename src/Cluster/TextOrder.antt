-- ===== src/Cluster/TextOrder.antt =====
-- An order of the texts that can stand for `localeCompare` in src/cluster/cluster-coordinator.ts when
-- the elections are run.
use Prim.Native.Char.{code}
use Prim.Native.String.{[], ◌∷◌}
use text.Mathlib.TextEquality.{Char-path}
use native.Mathlib.Decide.{ℕ_discrete}
use sync_engine.Base.{
  ◌≡◌, ◌≢◌, ◌⊎◌, refl, inl, inr, String, Bool, true, false, arith, ltb, ◌==◌, if◌then◌else◌,
  Bool-cases, str_eq, eq_iff, sym,
}
use sync_engine.Cluster.ClusterCoordinator.Election.{IsOrder}

-- The order of the texts by their first different characters, in the place of `localeCompare`.
unfoldable pub lex : String → String → Bool
lex [] [] = false
lex [] (d ∷ t) = true
lex (c ∷ s) [] = false
lex (c ∷ s) (d ∷ t) = let rest = lex s t in if code c == code d then rest else ltb (code c) (code d)

lex_irrefl : (a : String) → lex a a ≡ false
unfolding lex
lex_irrefl [] = refl
lex_irrefl (c ∷ s) = ground (arith, lex_irrefl s)

lex_trans : (a b c : String) → lex a b ≡ true → lex b c ≡ true → lex a c ≡ true
unfolding lex
lex_trans [] [] c h k = cc
lex_trans [] (y ∷ b) [] h k = cc
lex_trans [] (y ∷ b) (z ∷ c) h k = refl
lex_trans (x ∷ a) [] c h k = cc
lex_trans (x ∷ a) (y ∷ b) [] h k = cc
lex_trans (x ∷ a) (y ∷ b) (z ∷ c) h k = ground (arith, lex_trans a b c)

lex_total : (a b : String) → a ≢ b → (lex a b ≡ true) ⊎ (lex b a ≡ true)
unfolding lex
lex_total [] [] ne = absurd (ne refl)
lex_total [] (y ∷ b) ne = inl refl
lex_total (x ∷ a) [] ne = inr refl
lex_total (x ∷ a) (y ∷ b) ne = elim (ℕ_discrete (code x) (code y)) [
  | yes e ↦
      let same = Char-path x y e in
      let tails = lex_total a b (λ p. ne (λ i. same i ∷ p i)) in ground (arith, tails)
  | no differ ↦ ground arith
]

lex_weak : (a b c : String) → lex a c ≡ true → (lex a b ≡ true) ⊎ (lex b c ≡ true)
lex_weak a b c h = elim (Bool-cases (str_eq a b)) [
  | inl e ↦ inr (rw (sym ((eq_iff a b).0 e)) h)
  | inr ne ↦ elim (lex_total a b (λ p. cc (ne, (eq_iff a b).1 p))) [
    | inl less ↦ inl less
    | inr more ↦ inr (lex_trans b a c more h)
  ]
]

pub lex-IsOrder : IsOrder lex
lex-IsOrder = record { irrefl = lex_irrefl; trans = lex_trans; weak = lex_weak }
