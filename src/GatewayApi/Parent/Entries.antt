-- ===== src/GatewayApi/Parent/Entries.antt =====
-- The listeners that an object of the manifest set writes down, as pkg/gatewayapi/parent.go's
-- ListenersOf sees them.
use gwlint.Prelude.{String, List, [], ◌∷◌, ◌↔◌, inl, inr, map, Any}
use gwlint.Prelude.Pairs.{SomePair}
use gwlint.Api.{ListenerEntry, K8sObject, gateway_v1, listener_set_v1}
use gwlint.GatewayApi.Parent.{ObjectRef, Listener, listener_of, listeners_of}

-- The entries of a v1 Gateway and of a ListenerSet. A v1beta1 Gateway has entries too, which
-- ListenersOf does not see.
abbrev pub seen_entries : K8sObject → List ListenerEntry
seen_entries (gateway_v1 gw) = gw.listeners
seen_entries (listener_set_v1 ls) = ls.listeners
seen_entries _ = []

module _ (R : Listener → Listener → Type 0) (S : ListenerEntry → ListenerEntry → Type 0)
    (same : (kind : String) (owner : ObjectRef) (x y : ListenerEntry)
      → R (listener_of kind owner x) (listener_of kind owner y) ↔ S x y) where
  module _ (kind : String) (owner : ObjectRef) where
    from_one :
        (x : ListenerEntry) (ys : List ListenerEntry)
        → Any (R (listener_of kind owner x)) (map (listener_of kind owner) ys) ↔ Any (S x) ys
    from_one x [] = (λ h. h, λ h. h)
    from_one x (y ∷ ys) =
        let (forth, back) = from_one x ys in
        let (f, b) = same kind owner x y in
        (
          elim [ inl h ↦ inl (f h) | inr h ↦ inr (forth h) ],
          elim [ inl h ↦ inl (b h) | inr h ↦ inr (back h) ],
        )

    pairs : (xs : List ListenerEntry) → SomePair R (map (listener_of kind owner) xs) ↔ SomePair S xs
    pairs [] = (λ h. h, λ h. h)
    pairs (x ∷ xs) =
        let (forth, back) = pairs xs in
        let (f, b) = from_one x xs in
        (
          elim [ inl h ↦ inl (f h) | inr h ↦ inr (forth h) ],
          elim [ inl h ↦ inl (b h) | inr h ↦ inr (back h) ],
        )

  -- A pair of an object's listeners is a pair of its entries.
  pub listeners_of-SomePair :
      (obj : K8sObject) → SomePair R (listeners_of obj) ↔ SomePair S (seen_entries obj)
  unfolding listeners_of
  listeners_of-SomePair (gateway_v1 gw) = pairs _ _ gw.listeners
  listeners_of-SomePair (listener_set_v1 ls) = pairs _ _ ls.listeners
  listeners_of-SomePair _ = (λ h. h, λ h. h)
