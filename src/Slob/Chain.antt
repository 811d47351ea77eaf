-- ===== src/Slob/Chain.antt =====
-- What a free list of fast_slob.h is: a chain of buffers through memory, ended by NULL.
use android_binder_ipc.Common.{ℕ, ◌≡◌, ◌≢◌, List, [], ◌∷◌, arith, All, length}
use android_binder_ipc.Slob.{update}

-- From the word `head` the buffers `xs` are reached, in order.
abbrev pub Chain : (ℕ → ℕ) → ℕ → List ℕ → Type 0
Chain mem head [] = head ≡ 0
Chain mem head (x ∷ xs) = (head ≡ x) × (x ≢ 0) × Chain mem (mem x) xs

-- Each bucket heads the free list that stands at its place.
abbrev pub Chains : (ℕ → ℕ) → List ℕ → List (List ℕ) → Type 0
Chains mem [] [] = Unit
Chains mem (b ∷ bs) (f ∷ fs) = Chain mem b f × Chains mem bs fs
Chains mem _ _ = ⊥

abbrev pub Avoids : ℕ → List ℕ → Type 0
Avoids p = All (λ x. p ≢ x)

pub Chain-update :
    (mem : ℕ → ℕ) (p v head : ℕ) (xs : List ℕ)
    → Avoids p xs
    → Chain mem head xs
    → Chain (update mem p v) head xs
Chain-update mem p v head [] a c = c
Chain-update mem p v head (x ∷ xs) a c =
    (c.0, c.1, ground (arith, Chain-update mem p v (mem x) xs a.1 c.2))

pub Chains-update :
    (mem : ℕ → ℕ) (p v : ℕ) (bs : List ℕ) (fs : List (List ℕ))
    → All (Avoids p) fs
    → Chains mem bs fs
    → Chains (update mem p v) bs fs
Chains-update mem p v [] [] a c = tt
Chains-update mem p v (b ∷ bs) (f ∷ fs) a c =
    (Chain-update mem p v b f a.0 c.0, Chains-update mem p v bs fs a.1 c.1)
Chains-update mem p v [] (f ∷ fs) a c = c
Chains-update mem p v (b ∷ bs) [] a c = c

pub length-Chains :
    (mem : ℕ → ℕ) (bs : List ℕ) (fs : List (List ℕ)) → Chains mem bs fs → length bs ≡ length fs
length-Chains mem [] [] c = omega arith
length-Chains mem (b ∷ bs) (f ∷ fs) c = omega (arith, length-Chains mem bs fs c.1)
length-Chains mem [] (f ∷ fs) c = absurd c
length-Chains mem (b ∷ bs) [] c = absurd c
