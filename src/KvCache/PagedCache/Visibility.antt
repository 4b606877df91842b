-- ===== src/KvCache/PagedCache/Visibility.antt =====
-- src/kvcache/paged_cache.cpp, view: how many positions of a layer count, by the layer that is next.
use native.Mathlib.Nat.{mod_self, mod-eq_of_lt}
use llm_inference_engine.Prelude.{
  ℕ, ◌+◌, ◌-◌, ◌%◌, ◌≤◌, ◌<◌, ◌≡◌, ◌⊎◌, inl, inr, sym, ap, ◌∙◌, false, ◌==◌, ltb, Bool-cases,
  length, arith, ==→eq,
}
use llm_inference_engine.KvCache.PagedCache.{PagedKvCache, visible}

pub visible_done : (c : PagedKvCache) (l : ℕ) → c.next_layer ≡ 0 → visible c l ≡ c.table.num_tokens
unfolding visible
visible_done c l h = ground (arith, h)

pub visible_first : (c : PagedKvCache) → visible c 0 ≡ c.table.num_tokens
unfolding visible
visible_first c = ground arith

pub mod_small : (a b : ℕ) → a < b → a % b ≡ a
mod_small a b h = mod-eq_of_lt h

next_layer_cases :
    (l n : ℕ) → l < n → (((l + 1) % n ≡ 0) × (l + 1 ≡ n)) ⊎ (((l + 1) % n ≡ l + 1) × (l + 1 < n))
next_layer_cases l n h = elim (Bool-cases (l + 1 == n)) [
  | inl last ↦ let same = ==→eq (l + 1) n last in inl (ap (λ k. k % n) same ∙ mod_self n, same)
  | inr more ↦ let less : l + 1 < n = ground (arith, more, h) in inr (mod-eq_of_lt less, less)
]

pub visible_written :
    (c : PagedKvCache) (l : ℕ) → l < c.next_layer → visible c l ≡ c.table.num_tokens
unfolding visible
visible_written c l h = ground (arith, h)

pub visible_pending :
    (c : PagedKvCache) (l : ℕ)
    → 0 < c.next_layer
    → c.next_layer ≤ l
    → visible c l ≡ c.table.num_tokens - length c.pending_slots
unfolding visible
visible_pending c l h k = ground (arith, h, k)

abbrev pub next_of : ℕ → PagedKvCache → PagedKvCache
next_of num_layers c = record c { next_layer = (c.next_layer + 1) % num_layers }

-- The layer that is written now, and the others.
pub visible_now :
    (num_layers : ℕ) (c : PagedKvCache)
    → c.next_layer < num_layers
    → visible (next_of num_layers c) c.next_layer ≡ c.table.num_tokens
visible_now num_layers c h = elim (next_layer_cases c.next_layer num_layers h) [
  | inl (zero_it, last) ↦ visible_done (next_of num_layers c) c.next_layer zero_it
  | inr (up, more) ↦ visible_written (next_of num_layers c) c.next_layer (omega (arith, up))
]

pub visible_else :
    (num_layers : ℕ) (c : PagedKvCache) (l : ℕ)
    → 0 < c.next_layer
    → c.next_layer < num_layers
    → l < num_layers
    → (l == c.next_layer) ≡ false
    → visible (next_of num_layers c) l ≡ visible c l
visible_else num_layers c l some_layer h small ne =
    let c' = next_of num_layers c in
    elim (Bool-cases (ltb l c.next_layer)) [
      | inl earlier ↦
          let less : l < c.next_layer = ground (arith, earlier) in
          elim (next_layer_cases c.next_layer num_layers h) [
            | inl (zero_it, last) ↦ visible_done c' l zero_it ∙ sym (visible_written c l less)
            | inr (up, more) ↦
                visible_written c' l (omega (arith, up, less)) ∙ sym (visible_written c l less)
          ]
      | inr later ↦
          let above : c.next_layer < l = ground (arith, later, ne) in
          elim (next_layer_cases c.next_layer num_layers h) [
            | inl (zero_it, last) ↦ absurd (omega (arith, above, small, last))
            | inr (up, more) ↦
                visible_pending c' l (omega (arith, up)) (omega (arith, up, above))
                ∙ sym (visible_pending c l some_layer (omega (arith, above)))
          ]
    ]
