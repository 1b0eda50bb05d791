-- ===== src/Mica/Request/Answers.antt =====
-- mica/main.c, `mica_process_burst`: who gets a GET and who a SET, and what comes back.
use queue_dpdk.Prelude.{
  ℕ, zero, suc, ◌+◌, ◌<◌, ◌≡◌, ◌≢◌, refl, ◌∙◌, ap, Bool, true, false, not, Option, none, some, List,
  [], ◌∷◌, arith, length, ◌==◌, update, Bool-cases, inl, inr,
}
use queue_dpdk.Poll.{Mode, is_single}
use queue_dpdk.Mica.Request.{
  Tables, Bytes, key_of, copy, set_value, Server, Request, do_get, toggle, answer_get, answer_set,
  mica_process5tuple, mica_process_burst, value_offset, value_size,
}

copy-before : (pkt : Bytes) (at i : ℕ) (bs : List ℕ) → i < at → copy pkt at bs i ≡ pkt i
unfolding copy
copy-before pkt at i [] h = refl
copy-before pkt at i (b ∷ bs) h =
    copy-before (update pkt at b) (at + 1) i bs (omega (arith, h)) ∙ ground (arith, h)

-- The toggle after `n` packets.
abbrev pub flips : ℕ → Bool → Bool
flips zero b = b
flips (suc n) b = flips n (not b)

module _ (T : Tables) (mode : Mode) (lcore_id : ℕ) where
  -- If the program goes on, the toggles are those of `s`, and the packet keeps its headers.
  abbrev pub Answered : Bytes → Server T → Option (Bytes × Server T) → Type 0
  Answered pkt s none = Unit
  Answered pkt s (some (out, t)) =
      (t.flag ≡ s.flag)
      × (t.get_set_toggle ≡ s.get_set_toggle)
      × ((i : ℕ) → i < value_offset → out i ≡ pkt i)

  answer_get-Answered :
      (q : Request) (s : Server T) → Answered q.pkt s (answer_get T mode lcore_id q s)
  unfolding answer_get
  answer_get-Answered q s =
      let got = T.mehcached_get s.table (T.hash (key_of q.pkt)) (key_of q.pkt) value_size in
      go got.0 got.1 refl
    where
      go :
          (o : Option (List ℕ)) (table : T.Table)
          → T.mehcached_get s.table (T.hash (key_of q.pkt)) (key_of q.pkt) value_size ≡ (o, table)
          → Answered q.pkt s (answer_get T mode lcore_id q s)
      go none table e =
          rw (e, answer_get) (refl, refl, λ i h. copy-before q.pkt value_offset i q.junk h)
      go (some value) table e = elim (Bool-cases (length value == value_size)) [
        | inl l ↦
            rw (e, answer_get, l) (refl, refl, λ i h. copy-before q.pkt value_offset i value h)
        | inr l ↦ rw (e, answer_get, l) tt
      ]

  answer_set-Answered :
      (q : Request) (s : Server T) → Answered q.pkt s (answer_set T mode lcore_id q s)
  unfolding answer_set
  answer_set-Answered q s =
      go (T.mehcached_set s.table (T.hash (key_of q.pkt)) (key_of q.pkt) set_value) refl
    where
      go :
          (o : Option T.Table)
          → T.mehcached_set s.table (T.hash (key_of q.pkt)) (key_of q.pkt) set_value ≡ o
          → Answered q.pkt s (answer_set T mode lcore_id q s)
      go none e = rw (e, answer_set) tt
      go (some table) e =
          rw (e, answer_set) (refl, refl, λ i h. copy-before q.pkt value_offset i set_value h)

  mica_process5tuple-Answered :
      (q : Request) (s : Server T)
      → Answered q.pkt (toggle T mode lcore_id s) (mica_process5tuple T mode lcore_id q s)
  unfolding mica_process5tuple
  mica_process5tuple-Answered q s = elim (Bool-cases (do_get T mode lcore_id s)) [
    | inl g ↦ rw (mica_process5tuple, g) (answer_get-Answered q (toggle T mode lcore_id s))
    | inr g ↦ rw (mica_process5tuple, g) (answer_set-Answered q (toggle T mode lcore_id s))
  ]

  -- The toggles of `t` after `n` packets on `s`.
  abbrev pub Turned : ℕ → Server T → Server T → Type 0
  Turned n s t =
      (do_get T mode lcore_id t ≡ flips n (do_get T mode lcore_id s))
      × (is_single mode ≡ true → t.get_set_toggle ≡ s.get_set_toggle)
      × (is_single mode ≡ false
          → (t.flag ≡ s.flag)
            × ((other : ℕ) → other ≢ lcore_id → t.get_set_toggle other ≡ s.get_set_toggle other))

  abbrev pub SameHeaders : List Bytes → List Request → Type 0
  SameHeaders [] [] = Unit
  SameHeaders (out ∷ outs) (q ∷ qs) =
      ((i : ℕ) → i < value_offset → out i ≡ q.pkt i) × SameHeaders outs qs
  SameHeaders _ _ = ⊥

  abbrev pub BurstAnswered : List Request → Server T → Option (List Bytes × Server T) → Type 0
  BurstAnswered qs s none = Unit
  BurstAnswered qs s (some (outs, t)) = SameHeaders outs qs × Turned (length qs) s t

  Turned-suc :
      (n : ℕ) (s t u : Server T)
      → t.flag ≡ (toggle T mode lcore_id s).flag
      → t.get_set_toggle ≡ (toggle T mode lcore_id s).get_set_toggle
      → Turned n t u
      → Turned (suc n) s u
  Turned-suc n s t u f g h =
      let mine : t.get_set_toggle lcore_id ≡ (toggle T mode lcore_id s).get_set_toggle lcore_id =
        ap (λ k. k lcore_id) g in
      let next : do_get T mode lcore_id t ≡ not (do_get T mode lcore_id s) =
        ground (arith, f, mine) in
      (
        h.0 ∙ ap (flips n) next,
        λ e. h.1 e ∙ rw e at g,
        λ e. (
          (h.2 e).0 ∙ rw e at f,
          λ other ne. (h.2 e).1 other ne ∙ (ap (λ k. k other) g ∙ ground (arith, e, ne)),
        ),
      )

  -- Unless an assertion ends the program, a burst keeps the first 50 bytes of each packet, and
  -- turns the toggle between GET and SET once for each packet: the one of a single core, or the one
  -- of the lcore and of no other.
  pub mica_process_burst-Answered :
      (qs : List Request) (s : Server T)
      → BurstAnswered qs s (mica_process_burst T mode lcore_id qs s)
  unfolding mica_process_burst
  mica_process_burst-Answered [] s = (tt, (refl, λ e. refl, λ e. (refl, λ other ne. refl)))
  mica_process_burst-Answered (q ∷ qs) s =
      first (λ t. mica_process_burst-Answered qs t) (mica_process5tuple T mode lcore_id q s) refl
        (mica_process5tuple-Answered q s)
    where
      rest :
          (out : Bytes) (t : Server T)
          → Answered q.pkt (toggle T mode lcore_id s) (some (out, t))
          → (o : Option (List Bytes × Server T)) → BurstAnswered qs t o
          → BurstAnswered
              (q ∷ qs)
              s
              (elim o [ none ↦ none | some (outs, u) ↦ some (out ∷ outs, u) ])
      rest out t a none b = tt
      rest out t a (some (outs, u)) b = ((a.2, b.0), Turned-suc (length qs) s t u a.0 a.1 b.1)

      first :
          ((t : Server T) → BurstAnswered qs t (mica_process_burst T mode lcore_id qs t))
          → (o : Option (Bytes × Server T)) → mica_process5tuple T mode lcore_id q s ≡ o
          → Answered q.pkt (toggle T mode lcore_id s) o
          → BurstAnswered (q ∷ qs) s (mica_process_burst T mode lcore_id (q ∷ qs) s)
      first keep none e a = rw (e, mica_process_burst) tt
      first keep (some (out, t)) e a =
          rw (e, mica_process_burst)
            (rest out t a (mica_process_burst T mode lcore_id qs t) (keep t))
