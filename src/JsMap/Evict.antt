-- ===== src/JsMap/Evict.antt =====
-- The eviction loop that the bounded maps of the repository share:
-- `for (const k of map.keys()) { map.delete(k); if (++i >= n) break; }`.
use we_chat_ai.Base.{
  ℕ, ◌+◌, ◌≤◌, ◌≡◌, refl, ◌⊎◌, inl, none, List, [], ◌∷◌, arith, length, leb, if◌then◌else◌,
}
use we_chat_ai.JsMap.{Map, get, Distinct}

unfoldable pub evict_from {ℓ} : {A : Type ℓ} → ℕ → ℕ → List A → List A
evict_from n i [] = []
evict_from n i (e ∷ m) = let rest = evict_from n (i + 1) m in if leb n (i + 1) then m else rest

pub length-evict_from-le {ℓ} :
    {A : Type ℓ} (n i : ℕ) (m : List A) → length (evict_from n i m) ≤ length m
unfolding evict_from
length-evict_from-le n i [] = omega arith
length-evict_from-le n i (e ∷ m) = ground (arith, length-evict_from-le n (i + 1) m)

-- On a map that is not empty at least one entry goes, whatever the count.
pub length-evict_from-lt {ℓ} :
    {A : Type ℓ} (n i : ℕ) (e : A) (m : List A) → length (evict_from n i (e ∷ m)) ≤ length m
unfolding evict_from
length-evict_from-lt n i e m = ground (arith, length-evict_from-le n (i + 1) m)

module _ {K V : Type 0} (dec : Discrete K) where
  pub evict_from-Distinct :
      (n i : ℕ) (m : Map K V) → Distinct dec m → Distinct dec (evict_from n i m)
  unfolding evict_from
  evict_from-Distinct n i [] d = tt
  evict_from-Distinct n i (e ∷ m) (fresh, d) = ground (arith, evict_from-Distinct n (i + 1) m)

  -- What is left after an eviction is what was there.
  pub get-evict_from :
      (n i : ℕ) (j : K) (m : Map K V)
      → Distinct dec m
      → (get dec j (evict_from n i m) ≡ none) ⊎ (get dec j (evict_from n i m) ≡ get dec j m)
  unfolding evict_from get
  get-evict_from n i j [] d = inl refl
  get-evict_from n i j ((k, v) ∷ m) (fresh, d) = ground (arith, get-evict_from n (i + 1) j m d)
