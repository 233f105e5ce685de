-- ===== src/Resolve/Order.antt =====
-- The order of looked-up keys. The network numbers the keys of a message as its own keys, then the
-- writable keys of all lookups, then the readonly keys of all lookups.
use solus_protocol.Base.{List, [], ◌∷◌, ◌++◌, ◌≡◌, ◌↔◌, refl, sym, ap, ◌∙◌, some}
use mathlib.Core.List.{append_assoc, append-nil, append_cancel_left, append_cancel_right}
use solus_protocol.Error.{ok, ok-injective}
use solus_protocol.Instruction.{Pubkey, Bytes}
use solus_protocol.External.{External, Account}
use solus_protocol.Transaction.{AddressTableLookup}
use solus_protocol.Base.{Option, false}
use solus_protocol.Resolve.{resolve_lookup_table_addresses}
use solus_protocol.Resolve.Lookups.{AllAt, resolve_lookup_table_addresses_iff}

-- Both orders of the keys of two lookups, compared in the middle.
orders_iff :
    (w₁ r₁ w₂ r₂ : List Pubkey)
    → ((w₁ ++ r₁) ++ ((w₂ ++ r₂) ++ []) ≡ (w₁ ++ w₂) ++ (r₁ ++ r₂)) ↔ (r₁ ++ w₂ ≡ w₂ ++ r₁)
orders_iff w₁ r₁ w₂ r₂ = (
  λ h.
      append_cancel_right (r₁ ++ w₂) (w₂ ++ r₁) r₂
        (append_cancel_left w₁ ((r₁ ++ w₂) ++ r₂) ((w₂ ++ r₁) ++ r₂) (sym lookups ∙ (h ∙ network))),
  λ h. lookups ∙ (ap (λ m. w₁ ++ (m ++ r₂)) h ∙ sym network),
)
  where
    lookups : (w₁ ++ r₁) ++ ((w₂ ++ r₂) ++ []) ≡ w₁ ++ ((r₁ ++ w₂) ++ r₂)
    lookups = simp (append_assoc, append-nil)

    network : (w₁ ++ w₂) ++ (r₁ ++ r₂) ≡ w₁ ++ ((w₂ ++ r₁) ++ r₂)
    network = simp append_assoc

module _ {F D : Type 0} (x : External F D) (deserialize : Bytes → Option (List Pubkey)) where
  -- The writable and the readonly keys of one lookup.
  abbrev pub Finds : AddressTableLookup → List Pubkey → List Pubkey → Type 0
  Finds l writable readonly =
      (a : Account) × (table : List Pubkey) × (x.get_account l.account_key false ≡ ok a)
      × (deserialize a.payload ≡ some table)
      × AllAt table l.writable_indexes writable
      × AllAt table l.readonly_indexes readonly

  two_lookups :
      (l₁ l₂ : AddressTableLookup) (w₁ r₁ w₂ r₂ : List Pubkey)
      → Finds l₁ w₁ r₁
      → Finds l₂ w₂ r₂
      → resolve_lookup_table_addresses x deserialize (l₁ ∷ l₂ ∷ [])
        ≡ ok ((w₁ ++ r₁) ++ ((w₂ ++ r₂) ++ []))
  two_lookups l₁ l₂ w₁ r₁ w₂ r₂ (a, t, e, d, w, r) (b, u, f, g, v, s) =
      (resolve_lookup_table_addresses_iff x deserialize (l₁ ∷ l₂ ∷ []) _).1 (
        w₁ ++ r₁,
        (w₂ ++ r₂) ++ [],
        (a, t, w₁, r₁, e, d, w, r, refl),
        (w₂ ++ r₂, [], (b, u, w₂, r₂, f, g, v, s, refl), refl, refl),
        refl,
      )

  -- Two lookups that both find their keys resolve in the order of the network, which puts the
  -- writable keys of both before the readonly keys of both, exactly if the readonly keys of the
  -- first and the writable keys of the second are the same in either order.
  pub two_lookups-network_order_iff :
      (l₁ l₂ : AddressTableLookup) (w₁ r₁ w₂ r₂ : List Pubkey)
      → Finds l₁ w₁ r₁
      → Finds l₂ w₂ r₂
      → (resolve_lookup_table_addresses x deserialize (l₁ ∷ l₂ ∷ [])
          ≡ ok ((w₁ ++ w₂) ++ (r₁ ++ r₂)))
        ↔ (r₁ ++ w₂ ≡ w₂ ++ r₁)
  two_lookups-network_order_iff l₁ l₂ w₁ r₁ w₂ r₂ first second =
      let found = two_lookups l₁ l₂ w₁ r₁ w₂ r₂ first second in
      let same = orders_iff w₁ r₁ w₂ r₂ in
      (λ h. same.0 (ok-injective (sym found ∙ h)), λ h. found ∙ ap ok (same.1 h))
