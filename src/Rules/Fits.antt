-- ===== src/Rules/Fits.antt =====
-- nf-chain/src/main.c, `add_rules`: the two passes agree on the number of rules.
use native.Mathlib.Decide.{ℕ_discrete}
use mathlib.Core.Path.{subst}
use queue_dpdk.Prelude.{
  shift_1, ==_iff, ℕ, ◌+◌, ◌≡◌, Bool, Bool-cases, inl, inr, true, false, refl, arith, Option, none,
  some, List, [], ◌∷◌, leb, ◌==◌, length, length-append,
}
use Prim.Native.Nat.{bit_and}
use queue_dpdk.Rules.{
  after_lead, Line, lead, Rule, Rules, Loaded, loaded, exits, overrun, count_lead, only_spaces,
  is_bypass_line, entry, add_route, add_acl, add_line, add_lines, add_rules, route_lead_char,
  acl_lead_char,
}

module _ (isspace : ℕ → Bool) (r_solid : isspace route_lead_char ≡ false)
    (acl_solid : isspace acl_lead_char ≡ false) {Fields : Type 0}
    (parser : Line → Bool → Option (Rule Fields)) (enabled_port_mask max_priority : ℕ) where
  solid_lead :
      (k c : ℕ) (cs : Line)
      → isspace k ≡ false
      → (k == 35) ≡ false
      → is_bypass_line isspace (c ∷ cs) ≡ true
      → (c == k) ≡ false
  unfolding is_bypass_line only_spaces
  solid_lead k c cs s n h = elim (ℕ_discrete c k) [
    | yes e ↦
        let k_bypassed = subst (λ x. is_bypass_line isspace (x ∷ cs) ≡ true) e h in
        absurd (ground (arith, k_bypassed, s, n))
    | no ne ↦ ground (arith, ne)
  ]

  bypass_lead :
      (b : Line)
      → is_bypass_line isspace b ≡ true
      → ((lead b == route_lead_char) ≡ false) × ((lead b == acl_lead_char) ≡ false)
  bypass_lead [] h = (refl, refl)
  bypass_lead (c ∷ cs) h = (
    solid_lead route_lead_char c cs r_solid refl h,
    solid_lead acl_lead_char c cs acl_solid refl h,
  )

  -- The counts that are left for the lines to come, and no overrun.
  abbrev pub Fits : ℕ → ℕ → List Line → Loaded (Rules Fields) → Type 0
  Fits routes acls bs (loaded r) =
      (length r.routes + count_lead route_lead_char bs ≡ routes)
      × (length r.acls + count_lead acl_lead_char bs ≡ acls)
  Fits routes acls bs exits = Unit
  Fits routes acls bs overrun = ⊥

  add_route-Fits :
      (routes acls : ℕ) (b : Line) (bs : List Line) (r : Rules Fields)
      → lead b ≡ route_lead_char
      → Fits routes acls (b ∷ bs) (loaded r)
      → Fits routes acls bs (add_route isspace parser enabled_port_mask max_priority routes b r)
  unfolding add_route
  add_route-Fits routes acls b bs r e f = go (parser (after_lead b) true) refl
    where
      room : leb routes (length r.routes) ≡ false
      room = ground (arith, e, f)

      go :
          (o : Option (Rule Fields))
          → parser (after_lead b) true ≡ o
          → Fits routes acls bs (add_route isspace parser enabled_port_mask max_priority routes b r)
      go none q = rw (add_route, room, q) tt
      go (some rule) q =
          elim (Bool-cases (bit_and enabled_port_mask (shift_1 rule.userdata) == 0)) [
            | inl w ↦ rw (add_route, room, q, w) tt
            | inr w ↦
                rw (add_route, room, q, w)
                  (
                    ground (
                      arith,
                      e,
                      f,
                      length-append r.routes (
                          entry isspace parser enabled_port_mask max_priority r rule
                            (rule.userdata + 1)
                          ∷ []),
                    ),
                    ground (arith, e, f),
                  )
          ]

  add_acl-Fits :
      (routes acls : ℕ) (b : Line) (bs : List Line) (r : Rules Fields)
      → lead b ≡ acl_lead_char
      → Fits routes acls (b ∷ bs) (loaded r)
      → Fits routes acls bs (add_acl isspace parser enabled_port_mask max_priority acls b r)
  unfolding add_acl
  add_acl-Fits routes acls b bs r e f = go (parser (after_lead b) false) refl
    where
      room : leb acls (length r.acls) ≡ false
      room = ground (arith, e, f)

      go :
          (o : Option (Rule Fields))
          → parser (after_lead b) false ≡ o
          → Fits routes acls bs (add_acl isspace parser enabled_port_mask max_priority acls b r)
      go none q = rw (add_acl, room, q) tt
      go (some rule) q =
          rw (add_acl, room, q)
            (
              ground (arith, e, f),
              ground (
                arith,
                e,
                f,
                length-append r.acls (
                    entry isspace parser enabled_port_mask max_priority r rule
                      (0xf0000000 + length r.acls)
                    ∷ []),
              ),
            )

  add_line-Fits :
      (routes acls : ℕ) (b : Line) (bs : List Line) (r : Rules Fields)
      → Fits routes acls (b ∷ bs) (loaded r)
      → Fits routes acls bs (add_line isspace parser enabled_port_mask max_priority routes acls b r)
  unfolding add_line
  add_line-Fits routes acls b bs r f = elim (Bool-cases (is_bypass_line isspace b)) [
    | inl e ↦ let solid = bypass_lead b e in rw (add_line, e) (ground (arith, f, solid))
    | inr e ↦ elim (ℕ_discrete (lead b) route_lead_char) [
      | yes q ↦
          rw (add_line, e, (==_iff (lead b) route_lead_char).1 q)
            (add_route-Fits routes acls b bs r q f)
      | no n ↦ elim (ℕ_discrete (lead b) acl_lead_char) [
        | yes q ↦
            let other : (lead b == route_lead_char) ≡ false = ground (arith, n) in
            rw (add_line, e, other, (==_iff (lead b) acl_lead_char).1 q)
              (add_acl-Fits routes acls b bs r q f)
        | no k ↦
            let other : (lead b == route_lead_char) ≡ false = ground (arith, n) in
            let neither : (lead b == acl_lead_char) ≡ false = ground (arith, k) in
            rw (add_line, e, other, neither) tt
      ]
    ]
  ]

  add_lines-Fits :
      (routes acls : ℕ) (bs : List Line) (r : Rules Fields)
      → Fits routes acls bs (loaded r)
      → Fits routes acls []
          (add_lines isspace parser enabled_port_mask max_priority routes acls bs r)
  unfolding add_lines
  add_lines-Fits routes acls [] r f = f
  add_lines-Fits routes acls (b ∷ bs) r f =
      go (add_line isspace parser enabled_port_mask max_priority routes acls b r)
        (add_line-Fits routes acls b bs r f) refl (λ r' f'. add_lines-Fits routes acls bs r' f')
    where
      go :
          (o : Loaded (Rules Fields))
          → Fits routes acls bs o
          → add_line isspace parser enabled_port_mask max_priority routes acls b r ≡ o
          → ((r' : Rules Fields)
              → Fits routes acls bs (loaded r')
              → Fits routes acls []
                  (add_lines isspace parser enabled_port_mask max_priority routes acls bs r'))
          → Fits routes acls []
              (add_lines isspace parser enabled_port_mask max_priority routes acls (b ∷ bs) r)
      go (loaded r') f' q rest = rw (add_lines, q) (rest r' f')
      go exits f' q rest = rw (add_lines, q) tt
      go overrun f' q rest = absurd f'

  -- When the two lead characters are no white space, the second pass of `add_rules` never writes
  -- behind the arrays that the first pass has sized, and when it ends it has filled both.
  pub add_rules-Fits :
      (bs : List Line)
      → Fits
          (count_lead route_lead_char bs)
          (count_lead acl_lead_char bs)
          []
          (add_rules isspace parser enabled_port_mask max_priority bs)
  unfolding add_rules
  add_rules-Fits bs = elim (Bool-cases (count_lead route_lead_char bs == 0)) [
    | inl e ↦ rw (add_rules, e) tt
    | inr e ↦
        rw (add_rules, e)
          (add_lines-Fits (count_lead route_lead_char bs) (count_lead acl_lead_char bs) bs
            (record { routes = []; acls = [] }) (omega arith, omega arith))
  ]
