-- ===== src/Layer/Stack/TopDown.antt =====
-- The layers from the top down.
use hyprie.Base.{
  append_nil, ℕ, suc, ◌+◌, ◌≡◌, some, List, [], ◌∷◌, ◌++◌, Sequence, length, get_elem?, set, refl,
  ap, ap₂, sym, ◌∙◌, arith,
}
use hyprie.Layer.Stack.{LayerStack}

module _ {A : Type 0} where
  -- The list whose last elements, from the end, are the first list's, below `above`.
  abbrev pub put_below : List A → List A → List A
  put_below [] above = above
  put_below (t ∷ ts) above = put_below ts (t ∷ above)

  pub put_below_twice :
      (xs ys zs : List A) → put_below (put_below xs ys) zs ≡ put_below ys (xs ++ zs)
  put_below_twice [] ys zs = refl
  put_below_twice (x ∷ xs) ys zs = put_below_twice xs (x ∷ ys) zs

  abbrev pub top_down : List A → List A
  top_down xs = put_below xs []

  pub top_down_twice : (xs : List A) → top_down (top_down xs) ≡ xs
  top_down_twice xs = put_below_twice xs [] [] ∙ append_nil xs

  pub get_elem?-put_below :
      (ts above : List A) (i : ℕ)
      → get_elem? (put_below ts above) (length ts + i) ≡ get_elem? above i
  get_elem?-put_below [] above i = ap (get_elem? above) (omega arith)
  get_elem?-put_below (t ∷ ts) above i =
      ap (get_elem? (put_below ts (t ∷ above))) (omega arith)
      ∙ get_elem?-put_below ts (t ∷ above) (suc i)

  pub set-put_below :
      (ts above : List A) (i : ℕ) (a : A)
      → set (put_below ts above) (length ts + i) a ≡ put_below ts (set above i a)
  set-put_below [] above i a = ap (λ j. set above j a) (omega arith)
  set-put_below (t ∷ ts) above i a =
      ap (λ j. set (put_below ts (t ∷ above)) j a) (omega arith)
      ∙ set-put_below ts (t ∷ above) (suc i) a

  pub length-put_below :
      (ts above : List A) → length (put_below ts above) ≡ length ts + length above
  length-put_below [] above = omega arith
  length-put_below (t ∷ ts) above = omega (arith, length-put_below ts (t ∷ above))

module _ (𝓢 : Sequence) {Layer Event World : Type 0} where
  pub at_top :
      (ts above : List Layer) (s : LayerStack 𝓢 Layer Event World) (l : Layer)
      → 𝓢.content s.layers ≡ put_below (l ∷ ts) above
      → 𝓢.at s.layers (length ts) ≡ some l
  at_top ts above s l h =
      let zero_i : length ts + 0 ≡ length ts = omega arith in
      𝓢.at-content s.layers (length ts)
      ∙ ap₂ get_elem? h (sym zero_i)
      ∙ get_elem?-put_below ts (l ∷ above) 0

  pub store_top :
      (ts above : List Layer) (s : LayerStack 𝓢 Layer Event World) (l l' : Layer)
      → 𝓢.content s.layers ≡ put_below (l ∷ ts) above
      → 𝓢.content (𝓢.store s.layers (length ts) l') ≡ put_below ts (l' ∷ above)
  store_top ts above s l l' h =
      let zero_i : length ts + 0 ≡ length ts = omega arith in
      𝓢.content-store s.layers (length ts) l'
        (omega (arith, 𝓢.size-content s.layers, ap length h, length-put_below ts (l ∷ above)))
      ∙ ap₂ (λ c i. set c i l') h (sym zero_i)
      ∙ set-put_below ts (l ∷ above) 0 l'
