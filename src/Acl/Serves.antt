-- ===== src/Acl/Serves.antt =====
-- nf-chain/src/main.c, `app_acl_init`: every lcore finds the rules of both files under its socket.
use mathlib.Core.List.Memᴰ.{Memᴰ, head, tail}
use native.Mathlib.Decide.{ℕ_discrete}
use mathlib.Core.Path.{subst}
use queue_dpdk.Prelude.{
  length, ◌≢◌, zero, suc, interval, ◌+◌, ℕ, ◌<◌, ◌≤◌, ◌≡◌, refl, sym, Bool, true, false, inl, inr,
  ◌⊎◌, Option, none, some, List, [], ◌∷◌, ◌++◌, All, arith,
}
use queue_dpdk.Rules.{Rule, add_rules, count_lead, acl_lead_char, route_lead_char, Rules}
use queue_dpdk.Rules.Fits.{Fits, add_rules-Fits}
use queue_dpdk.Parse.{parse_cb_ipv4vlan_rule, parse_cb_ipv6_rule, Ipv4Fields, Ipv6Fields}
use queue_dpdk.Acl.{
  after_ipv6, after_ipv4, load_files, overrun, Loaded, exits, loaded, String, Line, load_ipv4,
  load_ipv6, app_acl_init, made, quits, breaks, returns_0, returns_1, Init, route_base, acl_base,
  frees_0, setup_calls, init_contexts, mapped_sockets, Act, Parms, AclConfig, map_sockets,
  setup_sockets, nb_sockets,
}
use queue_dpdk.Acl.Contexts.{
  ready, Keeps, Fails, Sets, Marks, setup_sockets-Sets, map_sockets-Marks,
}

-- The four arrays are made, used, and then each freed once.
abbrev pub Balanced : List Act → Type 0
Balanced acts =
    (uses : List Act) × (acts
      ≡ (made (route_base false)
          ∷ made (acl_base false)
          ∷ made (route_base true)
          ∷ made (acl_base true)
          ∷ [])
        ++ (uses ++ frees_0))
    × All Keeps uses

-- What each lcore of the machine finds under its socket.
abbrev pub Finds : Parms → Rules Ipv4Fields → Rules Ipv6Fields → AclConfig → Type 0
Finds p r4 r6 cfg =
    (l : ℕ)
    → Memᴰ l p.lcores
    → (p.numa_on ≡ true) ⊎ (p.socket_of l ≡ 0)
    → (cfg.acx_ipv4 (p.socket_of l) ≡ some (ready p.alg r4))
      × (cfg.acx_ipv6 (p.socket_of l) ≡ some (ready p.alg r6))

-- An lcore on a socket that the program has no room for.
abbrev pub OutOfRange : Parms → Type 0
OutOfRange p = (p.numa_on ≡ true) × ((l : ℕ) × Memᴰ l p.lcores × (nb_sockets ≤ p.socket_of l))

-- A call of rte_acl that is made for a marked socket does not succeed.
abbrev pub CallFails : (Act → Bool) → Parms → Rules Ipv4Fields → Rules Ipv6Fields → Type 0
CallFails succeeds p r4 r6 =
    (mapped : ℕ → Bool) × (mapped_sockets p.numa_on p.socket_of p.lcores ≡ some mapped)
    × (i : ℕ) × (mapped i ≡ true)
    × (Fails succeeds (setup_calls p.alg false (length r4.routes) (length r4.acls) i)
        ⊎ Fails succeeds (setup_calls p.alg true (length r6.routes) (length r6.acls) i))

abbrev InitServes : (Act → Bool) → Parms → Rules Ipv4Fields → Rules Ipv6Fields → Init → Type 0
InitServes succeeds p r4 r6 (returns_0 acts cfg) = Finds p r4 r6 cfg × Balanced acts
InitServes succeeds p r4 r6 (returns_1 acts) = OutOfRange p × Balanced acts
InitServes succeeds p r4 r6 quits = CallFails succeeds p r4 r6
InitServes succeeds p r4 r6 breaks = ⊥

below-Mem : (i n k : ℕ) → i ≤ k → k < i + n → Memᴰ k (interval i n)
below-Mem i zero k a b = absurd (omega (arith, a, b))
below-Mem i (suc n) k a b = elim (ℕ_discrete k i) [
  | yes e ↦ head e
  | no ne ↦ tail (below-Mem (i + 1) n k (omega (arith, a, ne)) (omega (arith, b)))
]

-- The marks on the sockets cover every lcore that looks a context up.
abbrev Covers : Bool → (ℕ → ℕ) → List ℕ → Option (ℕ → Bool) → Type 0
Covers numa_on socket_of lcores none =
    (numa_on ≡ true) × ((l : ℕ) × Memᴰ l lcores × (nb_sockets ≤ socket_of l))
Covers numa_on socket_of lcores (some mapped) =
    (l : ℕ)
    → Memᴰ l lcores
    → (numa_on ≡ true) ⊎ (socket_of l ≡ 0)
    → (socket_of l < nb_sockets) × (mapped (socket_of l) ≡ true)

mapped_sockets-Covers :
    (numa_on : Bool) (socket_of : ℕ → ℕ) (lcores : List ℕ)
    → Covers numa_on socket_of lcores (mapped_sockets numa_on socket_of lcores)
unfolding mapped_sockets
mapped_sockets-Covers false socket_of lcores =
    λ l m c. elim c [ inl e ↦ cc e | inr e ↦ (omega (arith, e), ground (arith, e)) ]
mapped_sockets-Covers true socket_of lcores =
    marked (map_sockets socket_of lcores (λ i. false))
      (map_sockets-Marks socket_of lcores (λ i. false))
  where
    marked :
        (o : Option (ℕ → Bool))
        → Marks socket_of lcores (λ i. false) o
        → Covers true socket_of lcores o
    marked none h = (refl, h)
    marked (some mapped) h = λ l m c. h.1 l m

init_contexts-Serves :
    (succeeds : Act → Bool) (p : Parms) (r4 : Rules Ipv4Fields) (r6 : Rules Ipv6Fields)
    → InitServes succeeds p r4 r6 (init_contexts succeeds p r4 r6)
unfolding init_contexts
init_contexts-Serves succeeds p r4 r6 =
    go (mapped_sockets p.numa_on p.socket_of p.lcores) refl
      (mapped_sockets-Covers p.numa_on p.socket_of p.lcores)
  where
    start : AclConfig
    start = record { acx_ipv4 = λ i. none; acx_ipv6 = λ i. none }

    quit :
        (mapped : ℕ → Bool)
        → mapped_sockets p.numa_on p.socket_of p.lcores ≡ some mapped
        → setup_sockets succeeds p.alg r4 r6 mapped (interval 0 nb_sockets) start ≡ none
        → init_contexts succeeds p r4 r6 ≡ quits
    quit mapped e q = rw (e, init_contexts, q) refl

    set :
        (mapped : ℕ → Bool)
        → mapped_sockets p.numa_on p.socket_of p.lcores ≡ some mapped
        → Covers p.numa_on p.socket_of p.lcores (some mapped)
        → (o : Option (List Act × AclConfig))
        → setup_sockets succeeds p.alg r4 r6 mapped (interval 0 nb_sockets) start ≡ o
        → Sets succeeds p.alg r4 r6 mapped (interval 0 nb_sockets) start o
        → InitServes succeeds p r4 r6 (init_contexts succeeds p r4 r6)
    set mapped e c none q h =
        let kept : CallFails succeeds p r4 r6 = (mapped, e, h.0, h.1, h.2) in
        subst (InitServes succeeds p r4 r6) (sym (quit mapped e q)) kept
    set mapped e c (some (acts, cfg)) q h =
        rw (e, init_contexts, q)
          (
            λ l m b.
                let at = c l m b in
                h.2 (p.socket_of l) (below-Mem 0 nb_sockets (p.socket_of l) (omega arith) at.0)
                  at.1,
            (acts, refl, h.0),
          )

    go :
        (o : Option (ℕ → Bool))
        → mapped_sockets p.numa_on p.socket_of p.lcores ≡ o
        → Covers p.numa_on p.socket_of p.lcores o
        → InitServes succeeds p r4 r6 (init_contexts succeeds p r4 r6)
    go none e c = rw (e, init_contexts) (c, ([], refl, tt))
    go (some mapped) e c =
        set mapped e c (setup_sockets succeeds p.alg r4 r6 mapped (interval 0 nb_sockets) start)
          refl (setup_sockets-Sets succeeds p.alg r4 r6 mapped (interval 0 nb_sockets) start)

module _ (isspace : ℕ → Bool) (strtoul : Line → ℕ → Option (ℕ × Line)) (strtok : Line → List Line)
    (enabled_port_mask max_priority : ℕ) (file : String → List Line) where
  -- The files that are loaded, and what they hold.
  abbrev pub FilesLoaded : Parms → Rules Ipv4Fields → Rules Ipv6Fields → Type 0
  FilesLoaded p r4 r6 =
      (name4 : String) × (name6 : String) × (p.rule_ipv4_name ≡ some name4)
      × (p.rule_ipv6_name ≡ some name6)
      × (load_ipv4 isspace strtoul strtok enabled_port_mask max_priority file name4 ≡ loaded r4)
      × (load_ipv6 isspace strtoul strtok enabled_port_mask max_priority file name6 ≡ loaded r6)

  -- Why the program ends: a file is not named, is not accepted, or a call of rte_acl fails.
  abbrev pub Refused : (Act → Bool) → Parms → Type 0
  Refused succeeds p =
      (p.rule_ipv4_name ≡ none)
      ⊎ (p.rule_ipv6_name ≡ none)
      ⊎ ((name : String) × (p.rule_ipv4_name ≡ some name)
          × (load_ipv4 isspace strtoul strtok enabled_port_mask max_priority file name ≡ exits))
      ⊎ ((name : String) × (p.rule_ipv6_name ≡ some name)
          × (load_ipv6 isspace strtoul strtok enabled_port_mask max_priority file name ≡ exits))
      ⊎ ((r4 : Rules Ipv4Fields) × (r6 : Rules Ipv6Fields) × FilesLoaded p r4 r6
          × CallFails succeeds p r4 r6)

  abbrev pub Serves : (Act → Bool) → Parms → Init → Type 0
  Serves succeeds p (returns_0 acts cfg) =
      (r4 : Rules Ipv4Fields) × (r6 : Rules Ipv6Fields) × FilesLoaded p r4 r6
      × Finds p r4 r6 cfg
      × Balanced acts
  Serves succeeds p (returns_1 acts) = OutOfRange p × Balanced acts
  Serves succeeds p quits = Refused succeeds p
  Serves succeeds p breaks = ⊥

  from_init :
      (succeeds : Act → Bool) (p : Parms) (r4 : Rules Ipv4Fields) (r6 : Rules Ipv6Fields) (o : Init)
      → FilesLoaded p r4 r6
      → InitServes succeeds p r4 r6 o
      → Serves succeeds p o
  from_init succeeds p r4 r6 (returns_0 acts cfg) f h = (r4, r6, f, h.0, h.1)
  from_init succeeds p r4 r6 (returns_1 acts) f h = h
  from_init succeeds p r4 r6 quits f h = inr (inr (inr (inr (r4, r6, f, h))))
  from_init succeeds p r4 r6 breaks f h = h

  module _ (succeeds : Act → Bool) (p : Parms) (name4 name6 : String)
      (e4 : p.rule_ipv4_name ≡ some name4) (e6 : p.rule_ipv6_name ≡ some name6) where
    after_ipv6-Serves :
        (r4 : Rules Ipv4Fields)
        → load_ipv4 isspace strtoul strtok enabled_port_mask max_priority file name4 ≡ loaded r4
        → (o : Loaded (Rules Ipv6Fields))
        → load_ipv6 isspace strtoul strtok enabled_port_mask max_priority file name6 ≡ o
        → o ≢ overrun
        → Serves succeeds p (after_ipv6 succeeds p r4 o)
    unfolding after_ipv6
    after_ipv6-Serves r4 q4 (loaded r6) q6 n =
        from_init succeeds p r4 r6 (init_contexts succeeds p r4 r6) (name4, name6, e4, e6, q4, q6)
          (init_contexts-Serves succeeds p r4 r6)
    after_ipv6-Serves r4 q4 exits q6 n = inr (inr (inr (inl (name6, e6, q6))))
    after_ipv6-Serves r4 q4 overrun q6 n = absurd (n refl)

    after_ipv4-Serves :
        (o4 : Loaded (Rules Ipv4Fields))
        → load_ipv4 isspace strtoul strtok enabled_port_mask max_priority file name4 ≡ o4
        → o4 ≢ overrun
        → (o6 : Loaded (Rules Ipv6Fields))
        → load_ipv6 isspace strtoul strtok enabled_port_mask max_priority file name6 ≡ o6
        → o6 ≢ overrun
        → Serves succeeds p (after_ipv4 succeeds p o4 o6)
    unfolding after_ipv4
    after_ipv4-Serves (loaded r4) q4 n4 o6 q6 n6 = after_ipv6-Serves r4 q4 o6 q6 n6
    after_ipv4-Serves exits q4 n4 o6 q6 n6 = inr (inr (inl (name4, e4, q4)))
    after_ipv4-Serves overrun q4 n4 o6 q6 n6 = absurd (n4 refl)

  module _ (solid_r : isspace route_lead_char ≡ false)
      (solid_a : isspace acl_lead_char ≡ false) where
    no_overrun :
        {F : Type 0} (parser : Line → Bool → Option (Rule F)) (bs : List Line)
        → add_rules isspace parser enabled_port_mask max_priority bs ≢ overrun
    no_overrun parser bs e =
        subst
          (Fits isspace solid_r solid_a parser enabled_port_mask max_priority
            (count_lead route_lead_char bs) (count_lead acl_lead_char bs) [])
          e (add_rules-Fits isspace solid_r solid_a parser enabled_port_mask max_priority bs)

    load_files-Serves :
        (succeeds : Act → Bool) (p : Parms) (o4 o6 : Option String)
        → p.rule_ipv4_name ≡ o4
        → p.rule_ipv6_name ≡ o6
        → Serves succeeds p
            (load_files isspace strtoul strtok enabled_port_mask max_priority file succeeds p o4 o6)
    unfolding load_files load_ipv4 load_ipv6
    load_files-Serves succeeds p none o6 e4 e6 = inl e4
    load_files-Serves succeeds p (some name4) none e4 e6 = inr (inl e6)
    load_files-Serves succeeds p (some name4) (some name6) e4 e6 =
        after_ipv4-Serves succeeds p name4 name6 e4 e6
          (load_ipv4 isspace strtoul strtok enabled_port_mask max_priority file name4) refl
          (no_overrun (parse_cb_ipv4vlan_rule strtoul strtok) (file name4))
          (load_ipv6 isspace strtoul strtok enabled_port_mask max_priority file name6) refl
          (no_overrun (parse_cb_ipv6_rule strtoul strtok) (file name6))

  -- When the two lead characters are no white space: if it returns 0, both files are named and
  -- accepted, and each lcore of the machine finds under its socket, which has to be 0 without NUMA, a
  -- context of the chosen method to which the rules of the IPv4 file have been added and which has
  -- then been built from them all, and one so made from those of the IPv6 file; if it returns
  -- -1, NUMA is on and an lcore has a socket of 8 or more; in both cases the four arrays of rules are
  -- made, used, and then each freed once. It ends the program only when a file is not named, a file
  -- that is named is not accepted, or, with both loaded, a call of rte_acl that it makes for a socket
  -- that is marked does not succeed; and it never writes behind an array.
  pub app_acl_init-Serves :
      (succeeds : Act → Bool) (p : Parms)
      → isspace route_lead_char ≡ false
      → isspace acl_lead_char ≡ false
      → Serves succeeds p
          (app_acl_init isspace strtoul strtok enabled_port_mask max_priority file succeeds p)
  unfolding app_acl_init
  app_acl_init-Serves succeeds p solid_r solid_a =
      load_files-Serves solid_r solid_a succeeds p p.rule_ipv4_name p.rule_ipv6_name refl refl
