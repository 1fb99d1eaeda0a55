-- ===== src/Storage/Layers/Chain.antt =====
-- The chain of layers without fuel.
use tarbox.Base.{
  ℕ, zero, suc, ◌<◌, ◌≡◌, refl, sym, ap, ◌∙◌, true, Option, none, some, List, [], ◌∷◌, All,
  find-All, find-holds, ltb, ltb→lt, arith, Option-cases, inl, inr,
}
use tarbox.Storage.Models.{TenantId, LayerId, Layer, Db}
use tarbox.Storage.Layers.{get_layer, is_layer, refers, chain_from, get_layer_chain}

-- Ids were handed out, and a parent before its child.
abbrev pub IsOrdered : Db → Type 0
IsOrdered db =
    All
      (λ (r : Layer).
        (r.layer_id < db.next_uuid) × (refers (λ p. ltb p r.layer_id) r.parent_layer_id ≡ true))
      db.layers

-- What one step of the chain makes of the rest.
abbrev pub chain_step : Option Layer → (LayerId → List Layer) → List Layer
chain_step none next = []
chain_step (some r) next = r ∷ elim r.parent_layer_id [ none ↦ [] | some p ↦ next p ]

chain_from-step :
    (fuel : ℕ) (t : TenantId) (l : LayerId) (db : Db)
    → chain_from (suc fuel) t l db ≡ chain_step (get_layer t l db) (λ p. chain_from fuel t p db)
unfolding chain_from
chain_from-step fuel t l db = elim (Option-cases (get_layer t l db)) [
  | inl e ↦ rw (chain_from, e) refl
  | inr (r, e) ↦ rw (chain_from, e) refl
]

module _ (t : TenantId) (db : Db) (v : IsOrdered db) where
  row_ordered :
      (l : LayerId) (r : Layer)
      → get_layer t l db ≡ some r
      → (l < db.next_uuid) × ((p : LayerId) → r.parent_layer_id ≡ some p → p < l)
  unfolding get_layer
  row_ordered l r h =
      let (a, b) =
        find-All (is_layer t l)
          (λ (r : Layer).
            (r.layer_id < db.next_uuid) × (refers (λ p. ltb p r.layer_id) r.parent_layer_id ≡ true))
          db.layers r v h in
      let k = find-holds (is_layer t l) db.layers r h in
      let same : r.layer_id ≡ l = ground arith in
      (omega (arith, a, same), λ p e. below r l p b same e)
    where
      below :
          (r : Layer) (l p : LayerId)
          → refers (λ p. ltb p r.layer_id) r.parent_layer_id ≡ true
          → r.layer_id ≡ l
          → r.parent_layer_id ≡ some p
          → p < l
      below r l p b same e =
          let q = ltb→lt p r.layer_id (ap (λ o. refers (λ p. ltb p r.layer_id) o) (sym e) ∙ b) in
          omega (arith, q, same)

  same_steps :
      (o : Option Layer) (f g : LayerId → List Layer)
      → ((r : Layer) (p : LayerId) → o ≡ some r → r.parent_layer_id ≡ some p → f p ≡ g p)
      → chain_step o f ≡ chain_step o g
  same_steps none f g h = refl
  same_steps (some r) f g h = ap (λ rest. r ∷ rest) (rest r.parent_layer_id (λ p e. h r p refl e))
    where
      rest :
          (o : Option LayerId)
          → ((p : LayerId) → o ≡ some p → f p ≡ g p)
          → elim o [ none ↦ [] | some p ↦ f p ] ≡ elim o [ none ↦ [] | some p ↦ g p ]
      rest none k = refl
      rest (some p) k = k p refl

  -- More fuel than the id changes nothing.
  chain_from-enough :
      (f g : ℕ) (l : LayerId) → l < f → l < g → chain_from f t l db ≡ chain_from g t l db
  chain_from-enough zero g l a b = absurd (omega arith)
  chain_from-enough (suc f) zero l a b = absurd (omega arith)
  chain_from-enough (suc f) (suc g) l a b =
      chain_from-step f t l db
      ∙ same_steps (get_layer t l db) (λ p. chain_from f t p db) (λ p. chain_from g t p db)
          (λ r p e q.
            let less = (row_ordered l r e).1 p q in
            chain_from-enough f g p (omega (arith, less)) (omega (arith, less)))
      ∙ sym (chain_from-step g t l db)

  chain_from-none : (f : ℕ) (l : LayerId) → get_layer t l db ≡ none → chain_from f t l db ≡ []
  unfolding chain_from
  chain_from-none zero l e = refl
  chain_from-none (suc f) l e = rw (chain_from, e) refl

  chain_from-suc :
      (n : ℕ) (l : LayerId)
      → l < n
      → chain_from n t l db ≡ chain_step (get_layer t l db) (λ p. chain_from n t p db)
  chain_from-suc zero l a = absurd (omega arith)
  chain_from-suc (suc n) l a =
      chain_from-step n t l db
      ∙ same_steps (get_layer t l db) (λ p. chain_from n t p db) (λ p. chain_from (suc n) t p db)
          (λ r p e q.
            let less = (row_ordered l r e).1 p q in
            chain_from-enough n (suc n) p (omega (arith, less, a)) (omega (arith, less, a)))

  -- If every parent was created before its child, the chain of a layer is empty for a layer that
  -- is not there, and else the layer followed by the chain of its parent: the query ends.
  pub get_layer_chain-step :
      (l : LayerId)
      → get_layer_chain t l db ≡ chain_step (get_layer t l db) (λ p. get_layer_chain t p db)
  unfolding get_layer_chain
  get_layer_chain-step l = elim (Option-cases (get_layer t l db)) [
    | inl e ↦
        chain_from-none db.next_uuid l e
        ∙ sym (ap (λ o. chain_step o (λ p. get_layer_chain t p db)) e)
    | inr (r, e) ↦ chain_from-suc db.next_uuid l (row_ordered l r e).0
  ]
