-- ===== src/Acl/Contexts.antt =====
-- nf-chain/src/main.c, `app_acl_init`: which sockets are marked, and get their contexts.
use mathlib.Core.List.Memᴰ.{Memᴰ, head, tail}
use mathlib.Core.Option
use mathlib.Core.Path.{subst}
use queue_dpdk.Prelude.{
  length, take_all, ℕ, ◌<◌, ◌≤◌, ◌≡◌, refl, ◌∙◌, sym, ap, Bool, true, false, Bool-cases, inl, inr,
  ◌⊎◌, Option, none, some, List, [], ◌∷◌, ◌++◌, All, All-append, arith, leb, ◌==◌, update,
}
use queue_dpdk.Rules.{Rules}
use queue_dpdk.Parse.{Ipv4Fields, Ipv6Fields}
use queue_dpdk.Acl.{
  apply, perform, Context, made, released, Act, AclConfig, map_sockets, all_succeed, setup_acl,
  setup_sockets, setup_calls, nb_sockets,
}

-- One of these calls does not succeed.
abbrev pub Fails : (Act → Bool) → List Act → Type 0
Fails succeeds acts = (a : Act) × Memᴰ a acts × (succeeds a ≡ false)

-- A context with the method and all the rules, routes first, that has been built from them.
abbrev pub ready : {F : Type 0} → ℕ → Rules F → Context F
ready alg r = record {
  classify = alg;
  added = r.routes ++ r.acls;
  built = some (r.routes ++ r.acls);
}

-- An act that neither makes nor frees an array.
abbrev pub Keeps : Act → Type 0
Keeps (made b) = ⊥
Keeps (released b) = ⊥
Keeps _ = Unit

module _ (succeeds : Act → Bool) where
  all_succeed-Fails : (acts : List Act) → all_succeed succeeds acts ≡ false → Fails succeeds acts
  unfolding all_succeed
  all_succeed-Fails [] e = cc e
  all_succeed-Fails (a ∷ acts) e = elim (Bool-cases (succeeds a)) [
    | inl on ↦ let (b, m, off) = all_succeed-Fails acts (rw on at e) in (b, tail m, off)
    | inr off ↦ (a, head refl, off)
  ]

  perform-ready :
      {F : Type 0} (alg : ℕ) (ipv6 : Bool) (r : Rules F) (i : ℕ) (c : Context F)
      → perform r (setup_calls alg ipv6 (length r.routes) (length r.acls) i) c ≡ ready alg r
  unfolding setup_calls perform apply
  perform-ready alg ipv6 r i c = elim (Bool-cases (alg == 0)) [
    | inl e ↦
        let same : alg ≡ 0 = ground (arith, e) in
        rw
          (
            e,
            take_all (length r.routes) r.routes (omega arith),
            take_all (length r.acls) r.acls (omega arith),
          )
          (ap (λ n. ready n r) (sym same))
    | inr e ↦
        rw
          (
            e,
            take_all (length r.routes) r.routes (omega arith),
            take_all (length r.acls) r.acls (omega arith),
          )
          refl
  ]

  setup_acl-cases :
      {F : Type 0} (alg : ℕ) (ipv6 : Bool) (r : Rules F) (i : ℕ)
      → ((setup_acl succeeds alg ipv6 r i).1 ≡ some (ready alg r))
        ⊎ ((setup_acl succeeds alg ipv6 r i).1 ≡ none)
          × Fails succeeds (setup_calls alg ipv6 (length r.routes) (length r.acls) i)
  unfolding setup_acl
  setup_acl-cases alg ipv6 r i =
      let calls = setup_calls alg ipv6 (length r.routes) (length r.acls) i in
      elim (Bool-cases (all_succeed succeeds calls)) [
        | inl e ↦ inl (rw e (ap some (perform-ready alg ipv6 r i _)))
        | inr e ↦ inr (rw e refl, all_succeed-Fails calls e)
      ]

  setup_acl-Keeps :
      {F : Type 0} (alg : ℕ) (ipv6 : Bool) (r : Rules F) (i : ℕ)
      → All Keeps (setup_acl succeeds alg ipv6 r i).0
  unfolding setup_acl setup_calls
  setup_acl-Keeps alg ipv6 r i = elim (Bool-cases (alg == 0)) [
    | inl e ↦ rw e (tt, (tt, (tt, (tt, tt))))
    | inr e ↦ rw e (tt, (tt, (tt, (tt, (tt, tt)))))
  ]

module _ (succeeds : Act → Bool) (alg : ℕ) (r4 : Rules Ipv4Fields) (r6 : Rules Ipv6Fields)
    (mapped : ℕ → Bool) where
  -- A socket with both contexts.
  abbrev pub Holds : AclConfig → ℕ → Type 0
  Holds cfg j = (cfg.acx_ipv4 j ≡ some (ready alg r4)) × (cfg.acx_ipv6 j ≡ some (ready alg r6))

  -- What the loop over the sockets `is` leaves.
  abbrev pub Sets : List ℕ → AclConfig → Option (List Act × AclConfig) → Type 0
  Sets is cfg none =
      (i : ℕ) × (mapped i ≡ true)
      × (Fails succeeds (setup_calls alg false (length r4.routes) (length r4.acls) i)
          ⊎ Fails succeeds (setup_calls alg true (length r6.routes) (length r6.acls) i))
  Sets is cfg (some (acts, cfg')) =
      All Keeps acts
      × ((j : ℕ) → Holds cfg j → Holds cfg' j)
      × ((j : ℕ) → Memᴰ j is → mapped j ≡ true → Holds cfg' j)

  abbrev put : ℕ → AclConfig → AclConfig
  put i cfg = record {
    acx_ipv4 = update cfg.acx_ipv4 i (some (ready alg r4));
    acx_ipv6 = update cfg.acx_ipv6 i (some (ready alg r6));
  }

  put-Holds : (i j : ℕ) (cfg : AclConfig) → Holds cfg j → Holds (put i cfg) j
  put-Holds i j cfg h = elim (Bool-cases (j == i)) [ inl e ↦ rw e (refl, refl) | inr e ↦ rw e h ]

  put-Holds_self : (i : ℕ) (cfg : AclConfig) → Holds (put i cfg) i
  put-Holds_self i cfg = let same : (i == i) ≡ true = ground arith in rw same (refl, refl)

  put-Sets_mem :
      (i j : ℕ) (is : List ℕ) (cfg cfg' : AclConfig)
      → ((k : ℕ) → Holds (put i cfg) k → Holds cfg' k)
      → ((k : ℕ) → Memᴰ k is → mapped k ≡ true → Holds cfg' k)
      → Memᴰ j (i ∷ is)
      → mapped j ≡ true
      → Holds cfg' j
  put-Sets_mem i j is cfg cfg' kept later (head e) on =
      subst (Holds cfg') (sym e) (kept i (put-Holds_self i cfg))
  put-Sets_mem i j is cfg cfg' kept later (tail m) on = later j m on

  put-Sets :
      (i : ℕ) (is : List ℕ) (cfg : AclConfig) (acts : List Act) (o : Option (List Act × AclConfig))
      → All Keeps acts
      → Sets is (put i cfg) o
      → Sets (i ∷ is) cfg (Option.map (λ (rest : List Act × AclConfig). (acts ++ rest.0, rest.1)) o)
  put-Sets i is cfg acts none k h = h
  put-Sets i is cfg acts (some (more, cfg')) k h = (
    All-append Keeps acts more k h.0,
    λ j b. h.1 j (put-Holds i j cfg b),
    λ j m e. put-Sets_mem i j is cfg cfg' h.1 h.2 m e,
  )

  skip-Sets :
      (i : ℕ) (is : List ℕ) (cfg : AclConfig) (o : Option (List Act × AclConfig))
      → mapped i ≡ false
      → Sets is cfg o
      → Sets (i ∷ is) cfg o
  skip-Sets i is cfg none off h = h
  skip-Sets i is cfg (some (acts, cfg')) off h = (h.0, h.1, λ j m e. later j m e)
    where
      later : (j : ℕ) → Memᴰ j (i ∷ is) → mapped j ≡ true → Holds cfg' j
      later j (head e) on = cc (sym off ∙ ap mapped (sym e) ∙ on)
      later j (tail m) on = h.2 j m on

  pub setup_sockets-Sets :
      (is : List ℕ) (cfg : AclConfig) → Sets is cfg (setup_sockets succeeds alg r4 r6 mapped is cfg)
  unfolding setup_sockets
  setup_sockets-Sets [] cfg = (tt, λ j h. h, λ j m e. elim m [ ])
  setup_sockets-Sets (i ∷ is) cfg =
      let calls = (setup_acl succeeds alg false r4 i).0 ++ (setup_acl succeeds alg true r6 i).0 in
      let keeps : All Keeps calls =
        All-append Keeps (setup_acl succeeds alg false r4 i).0 (setup_acl succeeds alg true r6 i).0
          (setup_acl-Keeps succeeds alg false r4 i) (setup_acl-Keeps succeeds alg true r6 i) in
      elim (Bool-cases (mapped i)) [
        | inr off ↦
            rw (off, setup_sockets)
              (skip-Sets i is cfg (setup_sockets succeeds alg r4 r6 mapped is cfg) off
                (setup_sockets-Sets is cfg))
        | inl on ↦ elim (setup_acl-cases succeeds alg false r4 i) [
          | inr f ↦ rw (on, setup_sockets, f.0) (i, on, inl f.1)
          | inl x4 ↦ elim (setup_acl-cases succeeds alg true r6 i) [
            | inr f ↦ rw (on, setup_sockets, x4, f.0) (i, on, inr f.1)
            | inl x6 ↦
                rw (on, setup_sockets, x4, x6)
                  (put-Sets i is cfg calls (setup_sockets succeeds alg r4 r6 mapped is (put i cfg))
                    keeps (setup_sockets-Sets is (put i cfg)))
          ]
        ]
      ]

-- The sockets of all lcores are marked, or there is an lcore out of range.
abbrev pub Marks : (ℕ → ℕ) → List ℕ → (ℕ → Bool) → Option (ℕ → Bool) → Type 0
Marks socket_of lcores mapped none = (l : ℕ) × Memᴰ l lcores × (nb_sockets ≤ socket_of l)
Marks socket_of lcores mapped (some mapped') =
    ((j : ℕ) → mapped j ≡ true → mapped' j ≡ true)
    × ((l : ℕ) → Memᴰ l lcores → (socket_of l < nb_sockets) × (mapped' (socket_of l) ≡ true))

pub map_sockets-Marks :
    (socket_of : ℕ → ℕ) (lcores : List ℕ) (mapped : ℕ → Bool)
    → Marks socket_of lcores mapped (map_sockets socket_of lcores mapped)
unfolding map_sockets
map_sockets-Marks socket_of [] mapped = (λ j e. e, λ l m. elim m [ ])
map_sockets-Marks socket_of (l ∷ lcores) mapped = elim (Bool-cases (leb nb_sockets (socket_of l))) [
  | inl far ↦ rw (far, map_sockets) (l, head refl, ground (arith, far))
  | inr near ↦
      rw (near, map_sockets)
        (mark (map_sockets socket_of lcores (update mapped (socket_of l) true)) near
          (map_sockets-Marks socket_of lcores (update mapped (socket_of l) true)))
]
  where
    mark :
        (o : Option (ℕ → Bool))
        → leb nb_sockets (socket_of l) ≡ false
        → Marks socket_of lcores (update mapped (socket_of l) true) o
        → Marks socket_of (l ∷ lcores) mapped o
    mark none near h = (h.0, tail h.1, h.2)
    mark (some mapped') near h = (λ j e. h.0 j (ground (arith, e)), own near h.0 h.1)
      where
        own :
            leb nb_sockets (socket_of l) ≡ false
            → ((j : ℕ) → update mapped (socket_of l) true j ≡ true → mapped' j ≡ true)
            → ((k : ℕ)
                → Memᴰ k lcores
                → (socket_of k < nb_sockets) × (mapped' (socket_of k) ≡ true))
            → (k : ℕ) → Memᴰ k (l ∷ lcores)
            → (socket_of k < nb_sockets) × (mapped' (socket_of k) ≡ true)
        own near kept rest k (head e) =
            rw (ap socket_of e) (ground (arith, near), kept (socket_of l) (ground arith))
        own near kept rest k (tail m) = rest k m
