-- ===== src/Groups/Printed.antt =====
-- A printed list of groups is read back.
use mathlib.Core.List.{append_assoc, append-nil}
use queue_dpdk.Prelude.{
  zero, false, true, ap, sym, ap, none, ◌+◌, length-append, ◌≤◌, ◌∙◌, ℕ, suc, ◌<◌, ◌≡◌, ◌≢◌, refl,
  true, false, Option, some, List, [], ◌∷◌, ◌++◌, All, arith, length, leb, ◌==◌,
}
use queue_dpdk.Rules.{Line}
use queue_dpdk.Groups.{accepted, parse_groups, past, before, groups}

past-here : (c : ℕ) (s : Line) → past c (c ∷ s) ≡ some s
unfolding past
past-here c s = let same : (c == c) ≡ true = ground arith in rw same refl

past-skip : (c x : ℕ) (s : Line) → (x == c) ≡ false → past c (x ∷ s) ≡ past c s
unfolding past
past-skip c x s e = rw e refl

before-lem :
    (c : ℕ) (g rest : Line) → All (λ x. x ≢ c) g → before c (g ++ (c ∷ rest)) ≡ some (g, c ∷ rest)
unfolding before
before-lem c [] rest a = let same : (c == c) ≡ true = ground arith in rw same refl
before-lem c (x ∷ g) rest a =
    let other : (x == c) ≡ false = ground (arith, a.0) in rw (other, before-lem c g rest a.1) refl

module _ {A : Type 0} (read : Line → Option A) (max : ℕ) (show : A → Line) where
  -- What follows the first group, and the groups: `(…),(…)`.
  pub print_rest : List A → Line
  print_rest [] = []
  print_rest (a ∷ l) = 44 ∷ 40 ∷ (show a ++ (41 ∷ print_rest l))

  pub print_groups : List A → Line
  print_groups [] = []
  print_groups (a ∷ l) = 40 ∷ (show a ++ (41 ∷ print_rest l))

  -- A value whose content can be told from the parentheses, fits, and is read back.
  abbrev pub Shows : A → Type 0
  Shows a = All (λ x. x ≢ 41) (show a) × (length (show a) < 256) × (read (show a) ≡ some a)

  group-lem :
      (fuel : ℕ) (a : A) (s rest : Line) (got : List A)
      → Shows a
      → length got < max
      → past 40 s ≡ some (show a ++ (41 ∷ rest))
      → groups read max (suc fuel) s got ≡ groups read max fuel (41 ∷ rest) (got ++ (a ∷ []))
  unfolding groups
  group-lem fuel a s rest got h room e =
      let fits : leb 256 (length (show a)) ≡ false = ground (arith, h.1) in
      let more : leb max (length got) ≡ false = ground (arith, room) in
      rw (e, groups, before-lem 41 (show a) rest h.0, fits, h.2, more) refl

  past-rest :
      (a : A) (l : List A)
      → past 40 (41 ∷ print_rest (a ∷ l)) ≡ some (show a ++ (41 ∷ print_rest l))
  unfolding print_rest
  past-rest a l =
      past-skip 40 41 (44 ∷ 40 ∷ (show a ++ (41 ∷ print_rest l))) refl
      ∙ past-skip 40 44 (40 ∷ (show a ++ (41 ∷ print_rest l))) refl
      ∙ past-here 40 (show a ++ (41 ∷ print_rest l))

  past-last : past 40 (41 ∷ print_rest []) ≡ none
  unfolding print_rest past
  past-last = refl

  groups-rest :
      (fuel : ℕ) (l got : List A)
      → All Shows l
      → length l < fuel
      → length got + length l ≤ max
      → groups read max fuel (41 ∷ print_rest l) got ≡ accepted (got ++ l)
  unfolding groups
  groups-rest zero l got h f room = absurd (omega (arith, f))
  groups-rest (suc fuel) [] got h f room =
      rw (past-last, groups) (ap accepted (sym (append-nil got)))
  groups-rest (suc fuel) (a ∷ l) got h f room =
      group-lem fuel a (41 ∷ print_rest (a ∷ l)) (print_rest l) got h.0 (omega (arith, room))
        (past-rest a l)
      ∙ groups-rest fuel l (got ++ (a ∷ [])) h.1 (omega (arith, f))
          (omega (arith, room, length-append got (a ∷ [])))
      ∙ ap accepted (append_assoc got (a ∷ []) l)

  length-print_rest : (l : List A) → length l ≤ length (print_rest l)
  unfolding print_rest
  length-print_rest [] = omega arith
  length-print_rest (a ∷ l) =
      omega (arith, length-print_rest l, length-append (show a) (41 ∷ print_rest l))

  -- The groups are read back.
  pub parse_groups-print_groups :
      (l : List A)
      → All Shows l
      → length l ≤ max
      → parse_groups read max (print_groups l) ≡ accepted l
  unfolding parse_groups print_groups groups past
  parse_groups-print_groups [] h room = refl
  parse_groups-print_groups (a ∷ l) h room =
      let rest = show a ++ (41 ∷ print_rest l) in
      let long : length l < length (40 ∷ rest) =
        omega (arith, length-print_rest l, length-append (show a) (41 ∷ print_rest l)) in
      group-lem (length (40 ∷ rest)) a (40 ∷ rest) (print_rest l) [] h.0 (omega (arith, room))
        (past-here 40 rest)
      ∙ groups-rest (length (40 ∷ rest)) l (a ∷ []) h.1 long (omega (arith, room))
