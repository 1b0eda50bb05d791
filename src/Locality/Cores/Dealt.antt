-- ===== src/Locality/Cores/Dealt.antt =====
-- locality/main.c, `main`: each enabled port is given to one enabled lcore.
use native.Mathlib.Decide.{ℕ_discrete}
use mathlib.Core.Path.{subst}
use mathlib.Core.List.{append_assoc, append-nil}
use queue_dpdk.Prelude.{
  Bool-cases, inr, inl, ℕ, zero, suc, ◌+◌, ◌*◌, ◌≤◌, ◌<◌, ◌≡◌, ◌≢◌, refl, ◌∙◌, sym, ap, Bool, true,
  false, not, ◌||◌, Option, none, some, List, [], ◌∷◌, ◌++◌, length, length-append, arith, ◌==◌,
}
use queue_dpdk.Locality.Cores.{Cores, next_lcore, take_port, assign_ports, no_ports}
use queue_dpdk.Locality.Cores.Gather.{
  gather, enabled_lcores, gather-empty, gather-take_port, gather-full,
}

module _ (is_enabled : ℕ → Bool) (per_lcore rte_max_lcore : ℕ) where
  -- The state once the ports `done` are given out.
  pub record Dealt (done : List ℕ) (s : Cores) : Type 0 where
    pub at_most : (j : ℕ) → length (s.rx_port_list j) ≤ per_lcore
    pub only_enabled : (j : ℕ) → is_enabled j ≡ false → s.rx_port_list j ≡ []
    pub rest_empty : (j : ℕ) → s.rx_lcore_id < j → s.rx_port_list j ≡ []
    pub before_full :
        (j : ℕ) → j < s.rx_lcore_id → is_enabled j ≡ true → length (s.rx_port_list j) ≡ per_lcore
    pub in_order : gather s.rx_port_list 0 rte_max_lcore ≡ done
    pub ids : s.rx_lcore_id + s.left ≡ rte_max_lcore

  -- Full up to an lcore, which has room, or up to the last one.
  abbrev Found : (ℕ → List ℕ) → ℕ → Option (ℕ × ℕ) → Type 0
  Found f start none = (j : ℕ) → j < rte_max_lcore → is_enabled j ≡ true → length (f j) ≡ per_lcore
  Found f start (some (left, lcore)) =
      (start ≤ lcore)
      × (lcore + left ≡ rte_max_lcore)
      × (0 < left)
      × (is_enabled lcore ≡ true)
      × (length (f lcore) ≢ per_lcore)
      × ((j : ℕ) → j < lcore → is_enabled j ≡ true → length (f j) ≡ per_lcore)

  abbrev no_room : (ℕ → List ℕ) → ℕ → Bool
  no_room f i = not (is_enabled i) || length (f i) == per_lcore

  no_room-full :
      (f : ℕ → List ℕ) (i : ℕ) → no_room f i ≡ true → is_enabled i ≡ true → length (f i) ≡ per_lcore
  no_room-full f i b e = ground (arith, b, e)

  no_room-room :
      (f : ℕ → List ℕ) (i : ℕ)
      → no_room f i ≡ false
      → (is_enabled i ≡ true) × (length (f i) ≢ per_lcore)
  no_room-room f i b = ground (arith, b)

  one_more : {P : ℕ → Type 0} (i : ℕ) → ((j : ℕ) → j < i → P j) → P i → (j : ℕ) → j < i + 1 → P j
  one_more {P} i h p j l = elim (ℕ_discrete j i) [
    | yes e ↦ subst P (sym e) p
    | no ne ↦ h j (omega (arith, l, ne))
  ]

  next_lcore-on :
      (f : ℕ → List ℕ) (left lcore : ℕ)
      → no_room f lcore ≡ true
      → next_lcore is_enabled per_lcore f (suc left) lcore
        ≡ next_lcore is_enabled per_lcore f left (lcore + 1)
  unfolding next_lcore
  next_lcore-on f left lcore e = rw (e, next_lcore) refl

  next_lcore-here :
      (f : ℕ → List ℕ) (left lcore : ℕ)
      → no_room f lcore ≡ false
      → next_lcore is_enabled per_lcore f (suc left) lcore ≡ some (suc left, lcore)
  unfolding next_lcore
  next_lcore-here f left lcore e = rw (e, next_lcore) refl

  next_lcore-Found :
      (f : ℕ → List ℕ) (start left lcore : ℕ)
      → start ≤ lcore
      → lcore + left ≡ rte_max_lcore
      → ((j : ℕ) → j < lcore → is_enabled j ≡ true → length (f j) ≡ per_lcore)
      → Found f start (next_lcore is_enabled per_lcore f left lcore)
  unfolding next_lcore
  next_lcore-Found f start zero lcore h e full = λ j l. full j (omega (arith, e, l))
  next_lcore-Found f start (suc left) lcore h e full = elim (Bool-cases (no_room f lcore)) [
    | inl b ↦ subst (Found f start) (sym (next_lcore-on f left lcore b)) (
        next_lcore-Found f start left (lcore + 1) (omega (arith, h)) (omega (arith, e))
          (one_more lcore full (no_room-full f lcore b)))
    | inr b ↦
        let room = no_room-room f lcore b in
        subst (Found f start) (sym (next_lcore-here f left lcore b))
          (h, e, omega arith, room.0, room.1, full)
  ]

  take_port-Dealt :
      (done : List ℕ) (portid left lcore : ℕ) (s : Cores)
      → Dealt done s
      → Found s.rx_port_list s.rx_lcore_id (some (left, lcore))
      → Dealt (done ++ (portid ∷ [])) (take_port is_enabled per_lcore portid left lcore s)
  unfolding take_port
  take_port-Dealt done portid left lcore s d (up, ids, pos, on, room, full) = record {
    at_most = λ j. ground (
      arith,
      d.at_most j,
      d.at_most lcore,
      room,
      length-append (s.rx_port_list lcore) (portid ∷ []),
    );
    only_enabled = λ j e. elim (ℕ_discrete j lcore) [
      | yes h ↦ absurd (ground (arith, on, ap is_enabled h, e))
      | no ne ↦ ground (arith, ne, d.only_enabled j e)
    ];
    rest_empty = λ j l. ground (arith, l, d.rest_empty j (omega (arith, up, l)));
    before_full = λ j l e. ground (arith, l, full j l e);
    in_order =
        gather-take_port s.rx_port_list lcore 0 rte_max_lcore portid (omega arith)
          (omega (arith, ids, pos)) (λ j l. d.rest_empty j (omega (arith, up, l)))
        ∙ ap (λ xs. xs ++ (portid ∷ [])) d.in_order;
    ids = ids;
  }

  -- All the ports given out, or more ports than there is room for.
  abbrev pub Assigned : List ℕ → Option Cores → Type 0
  Assigned ports none = enabled_lcores is_enabled 0 rte_max_lcore * per_lcore < length ports
  Assigned ports (some s) = Dealt ports s

  too_many :
      (done ports : List ℕ) (portid : ℕ) (s : Cores)
      → Dealt done s
      → Found s.rx_port_list s.rx_lcore_id none
      → enabled_lcores is_enabled 0 rte_max_lcore * per_lcore < length (done ++ (portid ∷ ports))
  too_many done ports portid s d full =
      let held =
        gather-full is_enabled per_lcore s.rx_port_list 0 rte_max_lcore
          (λ j l. full j (omega (arith, l))) d.only_enabled in
      omega (arith, held, ap length d.in_order, length-append done (portid ∷ ports))

  assign_ports-Assigned :
      (ports done : List ℕ) (s : Cores)
      → Dealt done s
      → Assigned (done ++ ports) (assign_ports is_enabled per_lcore ports s)
  unfolding assign_ports
  assign_ports-Assigned [] done s d = rw append-nil d
  assign_ports-Assigned (portid ∷ ports) done s d =
      go (next_lcore is_enabled per_lcore s.rx_port_list s.left s.rx_lcore_id) refl
        (next_lcore-Found s.rx_port_list s.rx_lcore_id s.left s.rx_lcore_id (omega arith) d.ids
          d.before_full)
        (λ left lcore f.
          subst (λ all. Assigned all (assign_ports is_enabled per_lcore ports (taken left lcore)))
            (append_assoc done (portid ∷ []) ports)
            (assign_ports-Assigned ports (done ++ (portid ∷ [])) (taken left lcore)
              (take_port-Dealt done portid left lcore s d f)))
    where
      taken : ℕ → ℕ → Cores
      taken left lcore = take_port is_enabled per_lcore portid left lcore s

      go :
          (o : Option (ℕ × ℕ))
          → next_lcore is_enabled per_lcore s.rx_port_list s.left s.rx_lcore_id ≡ o
          → Found s.rx_port_list s.rx_lcore_id o
          → ((left lcore : ℕ)
              → Found s.rx_port_list s.rx_lcore_id (some (left, lcore))
              → Assigned
                  (done ++ (portid ∷ ports))
                  (assign_ports is_enabled per_lcore ports (taken left lcore)))
          → Assigned
              (done ++ (portid ∷ ports))
              (assign_ports is_enabled per_lcore (portid ∷ ports) s)
      go none e f rest = rw (e, assign_ports) (too_many done ports portid s d f)
      go (some (left, lcore)) e f rest = rw (e, assign_ports) (rest left lcore f)

  -- Each enabled port is given to one enabled lcore, in order: the ports of the lcores, one lcore
  -- after another, are the enabled ports, no lcore has more of them than `cms_rx_queue_per_lcore`,
  -- and the enabled lcores in front of the last one used are full. The program ends only when there
  -- are more ports than all enabled lcores have room for.
  pub assign_ports-Dealt :
      (ports : List ℕ)
      → Assigned ports (assign_ports is_enabled per_lcore ports (no_ports rte_max_lcore))
  assign_ports-Dealt ports = assign_ports-Assigned ports [] (no_ports rte_max_lcore) (record {
    at_most = λ j. omega arith;
    only_enabled = λ j e. refl;
    rest_empty = λ j l. refl;
    before_full = λ j l. absurd (omega (arith, l));
    in_order = gather-empty (λ l. []) 0 rte_max_lcore (λ j l. refl);
    ids = omega arith;
  })
