-- ===== src/Ring/Tests.antt =====
-- The ring on concrete samples.
use proton5g.Base.{ℕ, [], ◌∷◌, ◌==◌, ◌≡◌, refl}
use proton5g.Ring.{Ring, new_ring, add, snapshot}
use proton5g.Ring.Order.{add_all, snapshot-add_all}

-- a sample is its time here; the clock stands at 100
abbrev push : ℕ → Ring ℕ → Ring ℕ
push = add (λ t. t == 0) (λ _. 100)

wrapped : snapshot 0 (push 4 (push 0 (push 2 (push 1 (new_ring 0 3))))) ≡ 2 ∷ 100 ∷ 4 ∷ []
unfolding snapshot add new_ring
wrapped = refl

snapshot-add_all_example :
    snapshot 0 (add_all 0 (λ t. t == 0) (λ _. 100) (1 ∷ 2 ∷ 0 ∷ 4 ∷ []) (new_ring 0 3))
    ≡ 2 ∷ 100 ∷ 4 ∷ []
snapshot-add_all_example = snapshot-add_all 0 (λ t. t == 0) (λ _. 100) 3 (1 ∷ 2 ∷ 0 ∷ 4 ∷ [])
