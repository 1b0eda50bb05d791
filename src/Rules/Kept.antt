-- ===== src/Rules/Kept.antt =====
-- nf-chain/src/main.c, `add_rules`: what the entries that it loads have in common.
use Prim.Native.Nat.{bit_and}
use queue_dpdk.Prelude.{
  ℕ, ◌+◌, ◌^◌, ◌%◌, ◌≡◌, ◌≢◌, refl, Bool, true, false, Bool-cases, inl, inr, Option, none, some,
  List, [], ◌∷◌, All, All-append, IfSome, arith, length, leb, ◌==◌, u32,
}
use queue_dpdk.Rules.{
  Line, Rule, Rules, Loaded, loaded, exits, overrun, lead, after_lead, count_lead, is_bypass_line,
  entry, add_route, add_acl, add_line, add_lines, add_rules, route_lead_char, acl_lead_char,
}

-- A route leads to a port that is enabled, or to one that has the same number modulo 32 as one.
abbrev pub LeadsOut : {Fields : Type 0} → ℕ → Rule Fields → Type 0
LeadsOut mask e = (port : ℕ) × (bit_and mask (2 ^ (port % 32)) ≢ 0) × (e.userdata ≡ u32 (port + 1))

module _ (isspace : ℕ → Bool) {Fields : Type 0} (P : Fields → Type 0)
    (parser : Line → Bool → Option (Rule Fields)) (enabled_port_mask max_priority : ℕ)
    (sane : (b : Line) (has_userdata : Bool)
      → IfSome (λ r. P r.fields) (parser b has_userdata)) where
  -- If the rules are loaded, the parser vouches for each, and each route leads to an enabled port modulo 32.
  abbrev pub Kept : Loaded (Rules Fields) → Type 0
  Kept (loaded r) =
      All (λ e. P e.fields) r.routes
      × All (λ e. P e.fields) r.acls
      × All (LeadsOut enabled_port_mask) r.routes
  Kept exits = Unit
  Kept overrun = Unit

  add_route-Kept :
      (n : ℕ) (b : Line) (r : Rules Fields)
      → Kept (loaded r)
      → Kept (add_route isspace parser enabled_port_mask max_priority n b r)
  unfolding add_route entry
  add_route-Kept n b r k = elim (Bool-cases (leb n (length r.routes))) [
    | inl full ↦ rw (full, add_route) tt
    | inr room ↦ go room (parser (after_lead b) true) refl (sane (after_lead b) true)
  ]
    where
      go :
          leb n (length r.routes) ≡ false
          → (o : Option (Rule Fields)) → parser (after_lead b) true ≡ o
          → IfSome (λ e. P e.fields) o
          → Kept (add_route isspace parser enabled_port_mask max_priority n b r)
      go room none e h = rw (room, add_route, e) tt
      go room (some rule) e h =
          elim (Bool-cases (bit_and enabled_port_mask (2 ^ (rule.userdata % 32)) == 0)) [
            | inl off ↦ rw (room, add_route, e, off) tt
            | inr on ↦
                rw (room, add_route, e, on)
                  (
                    All-append (λ x. P x.fields) r.routes _ k.0 (h, tt),
                    k.1,
                    All-append (LeadsOut enabled_port_mask) r.routes _ k.2
                        ((rule.userdata, ground (arith, on), refl), tt),
                  )
          ]

  add_acl-Kept :
      (n : ℕ) (b : Line) (r : Rules Fields)
      → Kept (loaded r)
      → Kept (add_acl isspace parser enabled_port_mask max_priority n b r)
  unfolding add_acl entry
  add_acl-Kept n b r k = elim (Bool-cases (leb n (length r.acls))) [
    | inl full ↦ rw (full, add_acl) tt
    | inr room ↦ go room (parser (after_lead b) false) refl (sane (after_lead b) false)
  ]
    where
      go :
          leb n (length r.acls) ≡ false
          → (o : Option (Rule Fields)) → parser (after_lead b) false ≡ o
          → IfSome (λ e. P e.fields) o
          → Kept (add_acl isspace parser enabled_port_mask max_priority n b r)
      go room none e h = rw (room, add_acl, e) tt
      go room (some rule) e h =
          rw (room, add_acl, e) (k.0, All-append (λ x. P x.fields) r.acls _ k.1 (h, tt), k.2)

  add_line-Kept :
      (n m : ℕ) (b : Line) (r : Rules Fields)
      → Kept (loaded r)
      → Kept (add_line isspace parser enabled_port_mask max_priority n m b r)
  unfolding add_line
  add_line-Kept n m b r k = elim (Bool-cases (is_bypass_line isspace b)) [
    | inl e ↦ rw (e, add_line) k
    | inr e ↦ elim (Bool-cases (lead b == route_lead_char)) [
      | inl f ↦ rw (e, f, add_line) (add_route-Kept n b r k)
      | inr f ↦ elim (Bool-cases (lead b == acl_lead_char)) [
        | inl g ↦ rw (e, f, g, add_line) (add_acl-Kept m b r k)
        | inr g ↦ rw (e, f, g, add_line) tt
      ]
    ]
  ]

  add_lines-Kept :
      (n m : ℕ) (bs : List Line) (r : Rules Fields)
      → Kept (loaded r)
      → Kept (add_lines isspace parser enabled_port_mask max_priority n m bs r)
  unfolding add_lines
  add_lines-Kept n m [] r k = k
  add_lines-Kept n m (b ∷ bs) r k =
      go (λ r' k'. add_lines-Kept n m bs r' k')
        (add_line isspace parser enabled_port_mask max_priority n m b r) refl
        (add_line-Kept n m b r k)
    where
      go :
          ((r' : Rules Fields)
            → Kept (loaded r')
            → Kept (add_lines isspace parser enabled_port_mask max_priority n m bs r'))
          → (o : Loaded (Rules Fields))
          → add_line isspace parser enabled_port_mask max_priority n m b r ≡ o
          → Kept o
          → Kept (add_lines isspace parser enabled_port_mask max_priority n m (b ∷ bs) r)
      go keep (loaded r') e h = rw (e, add_lines) (keep r' h)
      go keep exits e h = rw (e, add_lines) tt
      go keep overrun e h = rw (e, add_lines) tt

  -- Whatever the file holds, every entry that is loaded is one that the parser vouches for, and
  -- each route leads to a port whose number modulo 32 is that of an enabled port.
  pub add_rules-Kept :
      (bs : List Line) → Kept (add_rules isspace parser enabled_port_mask max_priority bs)
  unfolding add_rules
  add_rules-Kept bs = elim (Bool-cases (count_lead route_lead_char bs == 0)) [
    | inl e ↦ rw (e, add_rules) tt
    | inr e ↦ rw (e, add_rules) (add_lines-Kept _ _ bs _ (tt, tt, tt))
  ]
