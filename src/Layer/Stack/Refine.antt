-- ===== src/Layer/Stack/Refine.antt =====
-- The stack implements the two lists.
use hyprie.Base.{
  ℕ, suc, ◌+◌, ◌-◌, ◌≡◌, ◌<◌, ◌⊎◌, inl, inr, Option, none, some, ◌>>=◌, List, [], ◌∷◌, ◌++◌, ◌==◌,
  Sequence, snoc, length, get_elem?, insert_at, remove_at, length-++, get_elem?-++_left,
  get_elem?-++_right, insert_at-++, snoc-++, remove_at-++_left, remove_at-++_right,
  length-remove_at, length-snoc, refl, ap, ap₂, sym, subst, ◌∙◌, arith, Bool-cases,
}
use hyprie.Event.EventQueue.{push_all}
use hyprie.Layer.Stack.{
  Called, Methods, LayerStack, push_layer, push_overlay, find_layer, detach_at, pop_layer,
  pop_overlay,
}
use hyprie.Layer.Stack.Order.{
  push_all-pending, Order, Call, call_push_layer, call_push_overlay, call_pop_layer,
  call_pop_overlay, call_enqueue, remove_first, without_layer, without_overlay, ordered, execute,
  Agree, Implements,
}

module _ (𝓢 : Sequence) {Layer Event World F : Type 0} (𝓜 : Methods Layer Event World F) where
  -- The search finds the layer that the list loses.
  find_layer-remove_first :
      (v : 𝓢.Vec Layer) (target : ℕ) (xs : List Layer) (i : ℕ)
      → ((j : ℕ) → j < length xs → 𝓢.at v (i + j) ≡ get_elem? xs j)
      → ((find_layer 𝓢 𝓜 v target i (length xs) ≡ some none) × (remove_first 𝓜 target xs ≡ none))
        ⊎ ((k : ℕ) × (x : Layer) × (k < length xs)
            × (find_layer 𝓢 𝓜 v target i (length xs) ≡ some (some (i + k)))
            × (get_elem? xs k ≡ some x)
            × (remove_first 𝓜 target xs ≡ some (x, remove_at xs k)))
  unfolding find_layer remove_first
  find_layer-remove_first v target [] i h = inl (refl, refl)
  find_layer-remove_first v target (x ∷ xs) i h =
      let here : 𝓢.at v i ≡ some x = ap (𝓢.at v) (omega arith) ∙ h 0 (omega arith) in
      elim (Bool-cases (𝓜.address x == target)) [
        | inl same ↦ inr (
          0,
          x,
          omega arith,
          rw (here, same) (ap (λ p. some (some p)) (omega arith)),
          refl,
          rw same refl,
        )
        | inr other ↦
            elim (find_layer-remove_first v target xs (i + 1)
              (λ j l. ap (𝓢.at v) (omega arith) ∙ h (suc j) (omega arith))) [
                | inl (missed, kept) ↦ inl (rw (here, other) missed, rw (other, kept) refl)
                | inr (k, y, lt, found, at_k, removed) ↦ inr (
                  suc k,
                  y,
                  omega arith,
                  rw (here, other) (found ∙ ap (λ p. some (some p)) (omega arith)),
                  at_k,
                  rw (other, removed) refl,
                )
              ]
      ]

  -- What the events become in a call of a layer.
  pending_lem :
      (s : LayerStack 𝓢 Layer Event World) (o : Order Layer Event World)
      (called : Called Layer Event World)
      → Implements 𝓢 s o
      → 𝓢.content (push_all 𝓢 s.event_queue called.pushed).pending ≡ o.events ++ called.pushed
  pending_lem s o called h =
      (push_all-pending 𝓢 s.event_queue called.pushed).0 ∙ ap (λ l. l ++ called.pushed) h.pending

  size_lem :
      (s : LayerStack 𝓢 Layer Event World) (o : Order Layer Event World)
      → Implements 𝓢 s o
      → 𝓢.size s.layers ≡ length o.layers + length o.overlays
  size_lem s o h = 𝓢.size-content s.layers ∙ ap length h.content ∙ length-++ o.layers o.overlays

  -- A call of a layer faults on both sides, or goes on on both sides.
  both :
      {C : Type 0} (call : Option C) (f : C → Option (LayerStack 𝓢 Layer Event World))
      (g : C → Option (Order Layer Event World))
      → ((c : C) → Agree 𝓢 (f c) (g c))
      → Agree 𝓢 (call >>= f) (call >>= g)
  both none f g h = refl
  both (some c) f g h = h c

  push_layer-Agree :
      (s : LayerStack 𝓢 Layer Event World) (o : Order Layer Event World) (layer : Layer)
      → Implements 𝓢 s o
      → Agree 𝓢 (push_layer 𝓢 𝓜 s (some layer)) (ordered 𝓜 o (call_push_layer (some layer)))
  unfolding push_layer
  push_layer-Agree s o layer h = rw h.shared (
      both (𝓜.on_attach (𝓜.set_event_queue layer) o.shared) _ _ λ called. (
        _,
        refl,
        record {
          content =
              𝓢.content-emplace s.layers s.insert_index called.layer
                (omega (arith, size_lem s o h, h.index))
              ∙ ap₂ (λ l i. insert_at l i called.layer) h.content h.index
              ∙ insert_at-++ o.layers o.overlays called.layer;
          index = omega (arith, h.index, length-snoc o.layers called.layer);
          pending = pending_lem s o called h;
          shared = refl;
        },
      ))

  push_overlay-Agree :
      (s : LayerStack 𝓢 Layer Event World) (o : Order Layer Event World) (overlay : Layer)
      → Implements 𝓢 s o
      → Agree 𝓢 (push_overlay 𝓢 𝓜 s (some overlay)) (ordered 𝓜 o (call_push_overlay (some overlay)))
  unfolding push_overlay
  push_overlay-Agree s o overlay h = rw h.shared (
      both (𝓜.on_attach (𝓜.set_command_stream (𝓜.set_event_queue overlay)) o.shared) _ _ λ called. (
        _,
        refl,
        record {
          content =
              𝓢.content-push_back s.layers called.layer
              ∙ ap (λ l. snoc l called.layer) h.content
              ∙ snoc-++ o.layers o.overlays called.layer;
          index = h.index;
          pending = pending_lem s o called h;
          shared = refl;
        },
      ))

  pop_layer-Agree :
      (s : LayerStack 𝓢 Layer Event World) (o : Order Layer Event World) (layer : ℕ)
      → Implements 𝓢 s o
      → Agree 𝓢 (pop_layer 𝓢 𝓜 s (some layer)) (without_layer 𝓜 o (remove_first 𝓜 layer o.layers))
  unfolding pop_layer detach_at
  pop_layer-Agree s o layer h =
      elim (find_layer-remove_first s.layers layer o.layers 0 (λ j l.
        ap (𝓢.at s.layers) (omega arith)
        ∙ 𝓢.at-content s.layers j
        ∙ ap (λ c. get_elem? c j) h.content
        ∙ get_elem?-++_left o.layers o.overlays j l)) [
          | inl (missed, kept) ↦
              subst (λ r. Agree 𝓢 (pop_layer 𝓢 𝓜 s (some layer)) (without_layer 𝓜 o r)) (sym kept)
                (rw (h.index, missed) (s, refl, h))
          | inr (k, x, lt, found, at_k, removed) ↦
              let zero_k : 0 + k ≡ k = omega arith in
              let at_s : 𝓢.at s.layers k ≡ some x =
                𝓢.at-content s.layers k
                ∙ ap (λ c. get_elem? c k) h.content
                ∙ get_elem?-++_left o.layers o.overlays k lt
                ∙ at_k in
              subst (λ r. Agree 𝓢 (pop_layer 𝓢 𝓜 s (some layer)) (without_layer 𝓜 o r))
                (sym removed)
                (rw (h.index, found, zero_k, at_s, h.shared)
                  (detached (𝓜.on_detach x o.shared) _ _ _ λ called. (
                    _,
                    refl,
                    record {
                      content =
                          𝓢.content-erase s.layers k (omega (arith, size_lem s o h))
                          ∙ ap (λ c. remove_at c k) h.content
                          ∙ remove_at-++_left o.layers o.overlays k lt;
                      index = omega (arith, h.index, length-remove_at o.layers k lt);
                      pending = pending_lem s o called h;
                      shared = refl;
                    },
                  )))
        ]
    where
      detached :
          {C : Type 0} (call : Option C) (f : C → Option (LayerStack 𝓢 Layer Event World))
          (t : LayerStack 𝓢 Layer Event World → Option (LayerStack 𝓢 Layer Event World))
          (g : C → Option (Order Layer Event World))
          → ((c : C) → Agree 𝓢 (f c >>= t) (g c))
          → Agree 𝓢 ((call >>= f) >>= t) (call >>= g)
      detached none f t g h = refl
      detached (some c) f t g h = h c

  pop_overlay-Agree :
      (s : LayerStack 𝓢 Layer Event World) (o : Order Layer Event World) (overlay : ℕ)
      → Implements 𝓢 s o
      → Agree 𝓢
          (pop_overlay 𝓢 𝓜 s (some overlay))
          (without_overlay 𝓜 o (remove_first 𝓜 overlay o.overlays))
  unfolding pop_overlay detach_at
  pop_overlay-Agree s o overlay h =
      let n : 𝓢.size s.layers - length o.layers ≡ length o.overlays =
        omega (arith, size_lem s o h) in
      let above : (k j : ℕ) → length o.layers + j ≡ k → 𝓢.at s.layers k ≡ get_elem? o.overlays j =
        λ k j e.
          𝓢.at-content s.layers k
          ∙ ap (λ c. get_elem? c k) h.content
          ∙ get_elem?-++_right o.layers o.overlays j k e in
      elim (find_layer-remove_first s.layers overlay o.overlays (length o.layers)
        (λ j l. above _ j refl)) [
          | inl (missed, kept) ↦
              subst (λ r. Agree 𝓢 (pop_overlay 𝓢 𝓜 s (some overlay)) (without_overlay 𝓜 o r))
                (sym kept) (rw (h.index, n, missed) (s, refl, h))
          | inr (k, x, lt, found, at_k, removed) ↦
              let at_s : 𝓢.at s.layers (length o.layers + k) ≡ some x = above _ k refl ∙ at_k in
              subst (λ r. Agree 𝓢 (pop_overlay 𝓢 𝓜 s (some overlay)) (without_overlay 𝓜 o r))
                (sym removed)
                (rw (h.index, n, found, at_s, h.shared)
                  (both (𝓜.on_detach x o.shared) _ _ λ called. (
                    _,
                    refl,
                    record {
                      content =
                          𝓢.content-erase s.layers (length o.layers + k)
                            (omega (arith, size_lem s o h))
                          ∙ ap (λ c. remove_at c (length o.layers + k)) h.content
                          ∙ remove_at-++_right o.layers o.overlays k (length o.layers + k) refl;
                      index = h.index;
                      pending = pending_lem s o called h;
                      shared = refl;
                    },
                  )))
        ]

  -- A call faults exactly where the layer that it attaches or detaches does, and otherwise does to
  -- the stack what it does to the two lists: a layer goes on top of the layers and an overlay on top
  -- of the overlays, a layer or an overlay that is taken out is the first of its list with the
  -- address, and what the layers push in the calls waits in the queue in its order.
  pub execute-Implements :
      (s : LayerStack 𝓢 Layer Event World) (o : Order Layer Event World) (call : Call Layer Event)
      → Implements 𝓢 s o
      → Agree 𝓢 (execute 𝓢 𝓜 s call) (ordered 𝓜 o call)
  unfolding push_layer push_overlay pop_layer pop_overlay
  execute-Implements s o (call_push_layer none) h = (s, refl, h)
  execute-Implements s o (call_push_layer (some layer)) h = push_layer-Agree s o layer h
  execute-Implements s o (call_push_overlay none) h = (s, refl, h)
  execute-Implements s o (call_push_overlay (some overlay)) h = push_overlay-Agree s o overlay h
  execute-Implements s o (call_pop_layer none) h = (s, refl, h)
  execute-Implements s o (call_pop_layer (some layer)) h = pop_layer-Agree s o layer h
  execute-Implements s o (call_pop_overlay none) h = (s, refl, h)
  execute-Implements s o (call_pop_overlay (some overlay)) h = pop_overlay-Agree s o overlay h
  execute-Implements s o (call_enqueue event) h = (
    _,
    refl,
    record {
      content = h.content;
      index = h.index;
      pending = 𝓢.content-push_back s.event_queue.pending event ∙ ap (λ l. snoc l event) h.pending;
      shared = h.shared;
    },
  )
